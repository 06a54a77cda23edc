-- ===== src/Auth/Claims.antt =====
-- pkg/auth/jwtverifier.go: the endpoints that the claims of a token name. Claims are the values
-- that the JSON decoder makes; a map has its fields in an order that no claim depends on.
pub mod Jwt
use piko.Prelude.{
  ℕ,
  String,
  Bool,
  true,
  false,
  Option,
  none,
  some,
  List,
  [],
  ◌∷◌,
  ◌++◌,
  map,
  same,
  ite,
  Text.{cut_at},
}

mutual
  pub data Value : Type 0 where
    text : String → Value
    texts : List String → Value
    array : Items → Value
    object : Claims → Value
    other : Value

  pub data Items : Type 0 where
    no_items : Items
    item : Value → Items → Items

  -- `jwt.MapClaims`, and every other map[string]any
  pub data Claims : Type 0 where
    no_claims : Claims
    claim : String → Value → Claims → Claims

-- The loop of `extractEndpoints` along a path: each step goes to a part of the value before it.
unfoldable mutual
  pub walk : String → Value → Option Value
  walk path (object fields) = elim (cut_at b'.' path) [
    | none ↦ walk_key path none fields
    | some (key, rest) ↦ walk_key key (some rest) fields
  ]
  walk path (text s) = none
  walk path (texts l) = none
  walk path (array l) = none
  walk path other = none

  pub walk_key : String → Option String → Claims → Option Value
  walk_key key rest no_claims = none
  walk_key key rest (claim k v fields) =
      ite (same k key) (elim rest [ none ↦ some v | some path ↦ walk path v ])
        (walk_key key rest fields)

-- The items that are texts.
unfoldable pub strings : Items → List String
strings no_items = []
strings (item (text s) l) = s ∷ strings l
strings (item (texts t) l) = strings l
strings (item (array t) l) = strings l
strings (item (object t) l) = strings l
strings (item other l) = strings l

unfoldable pub values_of : Value → List String
unfolding strings
values_of (text s) = s ∷ []
values_of (texts l) = l
values_of (array l) = strings l
values_of (object c) = []
values_of other = []

-- `endpointIDFromClaim`
unfoldable pub endpoint_id_from_claim : String → String
unfolding cut_at
endpoint_id_from_claim value = elim (cut_at b'.' value) [
  | none ↦ value
  | some (name, rest) ↦ ite (same name "") value name
]

-- The values that are not empty, each reduced to an endpoint.
unfoldable pub reduce : List String → List String
unfolding endpoint_id_from_claim
reduce [] = []
reduce (v ∷ vs) = ite (same v "") (reduce vs) (endpoint_id_from_claim v ∷ reduce vs)

-- `extractEndpoints`
unfoldable pub extract_endpoints : Claims → String → List String
unfolding walk values_of reduce
extract_endpoints claims path = elim (walk path (object claims)) [
  | none ↦ []
  | some v ↦ reduce (values_of v)
]
