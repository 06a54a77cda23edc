-- ===== src/Auth/Config/Keys.antt =====
-- pkg/auth/config.go and jwtverifier.go: by which keys the verifier of a configuration verifies.
use piko.Prelude.{
  ℕ, String, ◌≡◌, refl, sym, ap, ◌∙◌, ◌≢◌, ◌⊎◌, inl, inr, Bool, true, false, Bool-cases, Option,
  none, some, Option-cases, List, [], ◌∷◌, ◌++◌, Result, ok, >>=-eq-ok, if◌then◌else◌, arith,
}
use piko.Auth.Claims.Jwt.{
  LoadedConfig, new_jwt_verifier, if_some, hmac_methods, rsa_methods, ecdsa_methods,
}
use piko.Auth.Config.{
  Config, Loader, LoadError, is_given, enabled, parse_given, parse_rsa, parse_ecdsa,
  load_jwks_given, load,
}

-- What a loaded configuration holds: each key that is given, and no other; and a key set alone.
pub record IsLoaded {Jwt P : Type 0} (l : Loader Jwt P) (c : Config) (k : LoadedConfig Jwt P)
    : Type 0 where
  pub hmac : k.hmac_secret_key ≡ l.bytes_of c.hmac_secret_key
  pub rsa :
      k.rsa_public_key
      ≡ (if is_given c.rsa_public_key then l.parse_rsa_key c.rsa_public_key else none)
  pub ecdsa :
      k.ecdsa_public_key
      ≡ (if is_given c.ecdsa_public_key then l.parse_ecdsa_key c.ecdsa_public_key else none)
  pub jwks : k.jwks ≡ (if is_given c.jwks_endpoint then l.load_key_set c else none)
  pub has_rsa : is_given c.rsa_public_key ≡ true → k.rsa_public_key ≢ none
  pub has_ecdsa : is_given c.ecdsa_public_key ≡ true → k.ecdsa_public_key ≢ none
  pub alone :
      is_given c.jwks_endpoint ≡ true
      → (is_given c.hmac_secret_key ≡ false)
        × (is_given c.rsa_public_key ≡ false)
        × (is_given c.ecdsa_public_key ≡ false)
        × (k.jwks ≢ none)

parse_given-ok :
    {P : Type 0} (parse : String → Option P) (e : LoadError) (s : String) (o : Option P)
    → parse_given parse e s ≡ ok o
    → (o ≡ (if is_given s then parse s else none)) × (is_given s ≡ true → o ≢ none)
unfolding parse_given
parse_given-ok parse e s o h = elim (Bool-cases (is_given s)) [
  | inl y ↦ elim (Option-cases (parse s)) [
    | inl f ↦ absurd (ground arith)
    | inr (p, f) ↦ (ground arith, λ g z. ground arith)
  ]
  | inr n ↦ (ground arith, λ g. absurd (ground arith))
]

load_jwks_given-ok :
    {Jwt P : Type 0} (l : Loader Jwt P) (c : Config) (o : Option (Jwt → Result String P))
    → load_jwks_given l c ≡ ok o
    → (o ≡ (if is_given c.jwks_endpoint then l.load_key_set c else none))
      × (is_given c.jwks_endpoint ≡ true
          → (is_given c.hmac_secret_key ≡ false)
            × (is_given c.rsa_public_key ≡ false)
            × (is_given c.ecdsa_public_key ≡ false)
            × (o ≢ none))
unfolding load_jwks_given
load_jwks_given-ok l c o h = elim (Bool-cases (is_given c.jwks_endpoint)) [
  | inl y ↦ elim (Option-cases (l.load_key_set c)) [
    | inl f ↦ absurd (ground arith)
    | inr (p, f) ↦
        (ground arith, λ g. (ground arith, ground arith, ground arith, λ z. ground arith))
  ]
  | inr n ↦ (ground arith, λ g. absurd (ground arith))
]

load-IsLoaded :
    {Jwt P : Type 0} (l : Loader Jwt P) (c : Config) (k : LoadedConfig Jwt P)
    → load l c ≡ ok k
    → IsLoaded l c k
unfolding load
load-IsLoaded l c k h =
    let (rsa, e, g) = >>=-eq-ok (parse_given l.parse_rsa_key parse_rsa c.rsa_public_key) _ h in
    let (ecdsa, e', g') =
      >>=-eq-ok (parse_given l.parse_ecdsa_key parse_ecdsa c.ecdsa_public_key) _ g in
    let (set, e'', g'') = >>=-eq-ok (load_jwks_given l c) _ g' in
    let (rsa_is, rsa_has) = parse_given-ok l.parse_rsa_key parse_rsa c.rsa_public_key rsa e in
    let (ecdsa_is, ecdsa_has) =
      parse_given-ok l.parse_ecdsa_key parse_ecdsa c.ecdsa_public_key ecdsa e' in
    let (set_is, set_alone) = load_jwks_given-ok l c set e'' in
    let from_rsa : rsa ≡ k.rsa_public_key = ground arith in
    let from_ecdsa : ecdsa ≡ k.ecdsa_public_key = ground arith in
    let from_set : set ≡ k.jwks = ground arith in
    record {
      hmac = ground arith;
      rsa = sym from_rsa ∙ rsa_is;
      ecdsa = sym from_ecdsa ∙ ecdsa_is;
      jwks = sym from_set ∙ set_is;
      has_rsa = λ y z. rsa_has y (from_rsa ∙ z);
      has_ecdsa = λ y z. ecdsa_has y (from_ecdsa ∙ z);
      alone = λ y.
          let (no_hmac, no_rsa, no_ecdsa, found) = set_alone y in
          (no_hmac, no_rsa, no_ecdsa, λ z. found (from_set ∙ z));
    }

-- The algorithms of the keys that a configuration gives, as the JWT standards name them.
unfoldable pub given_methods : Config → List String
given_methods c =
    (if is_given c.hmac_secret_key then "HS256" ∷ "HS384" ∷ "HS512" ∷ [] else [])
    ++ (if is_given c.rsa_public_key then "RS256" ∷ "RS384" ∷ "RS512" ∷ [] else [])
    ++ (if is_given c.ecdsa_public_key then "ES256" ∷ "ES384" ∷ "ES512" ∷ [] else [])

if_some-if :
    {P : Type 0} (o : Option P) (b : Bool) (ms : List String)
    → (b ≡ true → o ≢ none)
    → (b ≡ false → o ≡ none)
    → if_some o ms ≡ (if b then ms else [])
unfolding if_some
if_some-if none true ms has lacks = absurd (has refl refl)
if_some-if none false ms has lacks = refl
if_some-if (some p) true ms has lacks = refl
if_some-if (some p) false ms has lacks = absurd (ground (arith, lacks refl))

hmac-if :
    (bs : List ℕ) (b : Bool)
    → (b ≡ true → bs ≢ [])
    → (b ≡ false → bs ≡ [])
    → (elim bs [ [] ↦ [] | x ∷ xs ↦ hmac_methods ]) ≡ (if b then hmac_methods else [])
hmac-if [] true has lacks = absurd (has refl refl)
hmac-if [] false has lacks = refl
hmac-if (x ∷ xs) true has lacks = refl
hmac-if (x ∷ xs) false has lacks = absurd (ground (arith, lacks refl))

is_given-true : (s : String) → is_given s ≡ true → s ≢ ""
unfolding is_given
is_given-true s h e = ground arith

is_given-false : (s : String) → is_given s ≡ false → s ≡ ""
unfolding is_given
is_given-false s h = ground arith

given_methods-none :
    (c : Config)
    → given_methods c ≡ []
    → (is_given c.hmac_secret_key ≡ false)
      × (is_given c.rsa_public_key ≡ false)
      × (is_given c.ecdsa_public_key ≡ false)
unfolding given_methods
given_methods-none c h = elim (Bool-cases (is_given c.hmac_secret_key)) [
  | inl y ↦ absurd (ground arith)
  | inr n ↦ elim (Bool-cases (is_given c.rsa_public_key)) [
    | inl y ↦ absurd (ground arith)
    | inr m ↦ elim (Bool-cases (is_given c.ecdsa_public_key)) [
      | inl y ↦ absurd (ground arith)
      | inr k ↦ (n, m, k)
    ]
  ]
]

methods-given_methods :
    {Jwt P : Type 0} (l : Loader Jwt P) (c : Config) (k : LoadedConfig Jwt P)
    → l.bytes_of "" ≡ []
    → ((s : String) → s ≢ "" → l.bytes_of s ≢ [])
    → IsLoaded l c k
    → (new_jwt_verifier k).methods ≡ given_methods c
unfolding new_jwt_verifier given_methods
methods-given_methods l c k no_bytes some_bytes loaded =
    let hmac =
      hmac-if k.hmac_secret_key (is_given c.hmac_secret_key)
        (λ y z.
          some_bytes c.hmac_secret_key (is_given-true c.hmac_secret_key y) (sym loaded.hmac ∙ z))
        (λ n. loaded.hmac ∙ ap l.bytes_of (is_given-false c.hmac_secret_key n) ∙ no_bytes) in
    let rsa =
      if_some-if k.rsa_public_key (is_given c.rsa_public_key) rsa_methods loaded.has_rsa
        (λ n. ground (arith, loaded.rsa)) in
    let ecdsa =
      if_some-if k.ecdsa_public_key (is_given c.ecdsa_public_key) ecdsa_methods loaded.has_ecdsa
        (λ n. ground (arith, loaded.ecdsa)) in
    rw (hmac, rsa, ecdsa) refl

-- The list of valid algorithms that the verifier of a loaded configuration gives to the JWT library
-- has the algorithms of the keys that the configuration gives, and no others. Where the endpoint of
-- a key set is given, the verifier has that key set and the list is empty, with which the library
-- checks no algorithm; where no endpoint is given, it has no key set. Where the configuration is
-- enabled, the list is not empty or there is a key set. The bytes of a text are empty just for the
-- empty text.
pub load-given_methods :
    {Jwt P : Type 0} (l : Loader Jwt P) (c : Config) (k : LoadedConfig Jwt P)
    → l.bytes_of "" ≡ []
    → ((s : String) → s ≢ "" → l.bytes_of s ≢ [])
    → load l c ≡ ok k
    → ((new_jwt_verifier k).methods ≡ given_methods c)
      × ((new_jwt_verifier k).key_func
          ≡ (if is_given c.jwks_endpoint then l.load_key_set c else none))
      × (is_given c.jwks_endpoint ≡ true → (new_jwt_verifier k).methods ≡ [])
      × (enabled c ≡ true
          → ((new_jwt_verifier k).methods ≢ []) ⊎ ((new_jwt_verifier k).key_func ≢ none))
unfolding new_jwt_verifier given_methods enabled
load-given_methods l c k no_bytes some_bytes h =
    let loaded = load-IsLoaded l c k h in
    let methods = methods-given_methods l c k no_bytes some_bytes loaded in
    (
      methods,
      loaded.jwks,
      λ y.
          let (no_hmac, no_rsa, no_ecdsa, found) = loaded.alone y in
          methods ∙ rw (no_hmac, no_rsa, no_ecdsa) refl,
      λ on. elim (Bool-cases (is_given c.jwks_endpoint)) [
        | inl y ↦ inr (loaded.alone y).3
        | inr n ↦ inl (λ z.
            let (no_hmac, no_rsa, no_ecdsa) = given_methods-none c (sym methods ∙ z) in
            ground arith)
      ],
    )
