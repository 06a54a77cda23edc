-- ===== src/Auth/Claims/Jwt/Scope.antt =====
-- pkg/auth/jwtverifier.go: the endpoints of a verified token.
use piko.Prelude.{
  String, ◌≡◌, refl, sym, ap, subst, ◌∙◌, ◌≢◌, Bool, true, false, Bool-cases, List, [], ◌∷◌, ◌++◌,
  ◌||◌, ◌&&◌, ok, Result-cases, inl, inr, arith,
}
use piko.Auth.Tenants.{Token, contains}
use piko.Auth.Claims.{Claims, extract_endpoints}
use piko.Auth.Claims.Jwt.{
  Library, JwtVerifier, token_expired, parse_failed, add_new, combine, is_empty, token_of,
  verify_jwt, key_for, if_given,
}

-- Whether one of the configured claims names an endpoint.
unfoldable pub named : Claims → List String → String → Bool
unfolding contains extract_endpoints
named fields [] id = false
named fields (path ∷ paths) id =
    contains id (extract_endpoints fields path) || named fields paths id

-- No endpoint stands twice.
unfoldable pub Distinct : List String → Type 0
Distinct [] = Unit {0}
Distinct (e ∷ es) = (contains e es ≡ false) × Distinct es

contains-append :
    (id : String) (xs ys : List String)
    → contains id (xs ++ ys) ≡ (contains id xs || contains id ys)
unfolding contains
contains-append id [] ys = refl
contains-append id (x ∷ xs) ys = ground (arith, contains-append id xs ys)

Distinct-snoc :
    (xs : List String) (e : String) → contains e xs ≡ false → Distinct xs → Distinct (xs ++ e ∷ [])
unfolding Distinct contains
Distinct-snoc [] e h d = (refl, tt)
Distinct-snoc (x ∷ xs) e h d =
    (ground (arith, contains-append x xs (e ∷ [])), Distinct-snoc xs e (ground arith) d.1)

contains-add_new :
    (id : String) (have es : List String)
    → contains id (add_new have es) ≡ (contains id have || contains id es)
unfolding add_new contains
contains-add_new id have [] = ground arith
contains-add_new id have (e ∷ es) = elim (Bool-cases (contains e have)) [
  | inl h ↦ rw h (ground (arith, contains-add_new id have es))
  | inr h ↦
      rw h
        (ground (arith, contains-add_new id (have ++ e ∷ []) es, contains-append id have (e ∷ [])))
]

Distinct-add_new : (have es : List String) → Distinct have → Distinct (add_new have es)
unfolding add_new
Distinct-add_new have [] d = d
Distinct-add_new have (e ∷ es) d = elim (Bool-cases (contains e have)) [
  | inl h ↦ rw h (Distinct-add_new have es d)
  | inr h ↦ rw h (Distinct-add_new (have ++ e ∷ []) es (Distinct-snoc have e h d))
]

contains-combine :
    (id : String) (fields : Claims) (have paths : List String)
    → contains id (combine fields have paths) ≡ (contains id have || named fields paths id)
unfolding combine named
contains-combine id fields have [] = ground arith
contains-combine id fields have (path ∷ paths) = ground (
  arith,
  contains-combine id fields (add_new have (extract_endpoints fields path)) paths,
  contains-add_new id have (extract_endpoints fields path),
)

Distinct-combine :
    (fields : Claims) (have paths : List String)
    → Distinct have
    → Distinct (combine fields have paths)
unfolding combine
Distinct-combine fields have [] d = d
Distinct-combine fields have (path ∷ paths) d =
    Distinct-combine fields (add_new have (extract_endpoints fields path)) paths
      (Distinct-add_new have (extract_endpoints fields path) d)

-- What the endpoints of a token are, by the claims that it was parsed to.
pub record IsScoped {Jwt P : Type 0} (v : JwtVerifier Jwt P) (fields : Claims) (t : Token)
    : Type 0 where
  pub by_claims : (id : String) → contains id t.endpoints ≡ named fields v.endpoints_claim id
  pub distinct : Distinct t.endpoints
  pub required : v.require_endpoints ≡ true → t.endpoints ≢ []

token_of-IsScoped :
    {Jwt P : Type 0} (lib : Library Jwt P) (v : JwtVerifier Jwt P) (fields : Claims) (t : Token)
    → token_of lib v fields ≡ ok t
    → IsScoped v fields t
unfolding token_of is_empty contains Distinct
token_of-IsScoped lib v fields t h =
    let es = combine fields [] v.endpoints_claim in
    elim (Bool-cases (v.require_endpoints && is_empty es)) [
      | inl refused ↦ absurd (ground arith)
      | inr passed ↦
          let e : es ≡ t.endpoints = ground arith in
          record {
            by_claims =
                λ id. ap (contains id) (sym e) ∙ contains-combine id fields [] v.endpoints_claim;
            distinct = subst Distinct e (Distinct-combine fields [] v.endpoints_claim tt);
            required = λ r z. ground (arith, sym e, ap is_empty (e ∙ z));
          }
    ]

-- A token that verifies was parsed, with the configured methods, audience, issuer and keys, as
-- valid. Its endpoints are those that one of the configured claims names, none of them twice, and
-- there is one at least where endpoints are required.
pub verify_jwt-IsScoped :
    {Jwt P : Type 0} (lib : Library Jwt P) (v : JwtVerifier Jwt P) (s : String) (t : Token)
    → verify_jwt lib v s ≡ ok t
    → (fields : Claims) × (lib.parse v.methods
          (if_given v.audience)
          (if_given v.issuer)
          (key_for lib v)
          s
        ≡ ok (true, fields))
      × IsScoped v fields t
unfolding verify_jwt
verify_jwt-IsScoped lib v s t h =
    elim (Result-cases
      (lib.parse v.methods (if_given v.audience) (if_given v.issuer) (key_for lib v) s)) [
        | inl ((true, fields), e) ↦ (fields, e, token_of-IsScoped lib v fields t (ground arith))
        | inl ((false, fields), e) ↦ absurd (ground arith)
        | inr (token_expired, e) ↦ absurd (ground arith)
        | inr (parse_failed, e) ↦ absurd (ground arith)
      ]
