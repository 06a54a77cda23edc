-- ===== src/Admin/Password/Signed.antt =====
-- server/admin/password.go: the sessions that are valid are those that were signed.
use Prim.Native.String
use text.Mathlib.TextLemmas.{append_assoc}
use piko.Prelude.{
  ℕ,
  ◌≤◌,
  String,
  ◌≡◌,
  refl,
  ap,
  ◌∙◌,
  true,
  false,
  Option-cases,
  some,
  inl,
  inr,
  arith,
  Text.{cut_at, contains_code, atoi, itoa, atoi-itoa, contains-itoa},
  Text.Cut.{cut_at-append, cut_at-before},
}
use piko.Prelude.Int.{ℤ, pos, max_int}
use piko.Admin.Password.{PasswordAuth, is_after, sign, session_body, is_signed, valid}

module _ (hmac : String → String → String) (hex : String → String) (a : PasswordAuth) where
  -- A token of one's own making, of a name with no dot, that has not expired.
  pub record IsSession (now : ℕ) (token : String) : Type 0 where
    pub id : String
    pub expiry : ℤ
    pub whole : contains_code b'.' id ≡ false
    pub signed : token ≡ sign hmac hex a id expiry
    pub fresh : is_after now expiry ≡ false

  is_signed-cases :
      (now : ℕ) (token id : String) (expiry : ℤ)
      → is_signed hmac hex a now token id expiry ≡ true
      → (is_after now expiry ≡ false) × (token ≡ sign hmac hex a id expiry)
  unfolding is_signed
  is_signed-cases now token id expiry h = ground arith

  -- A token is valid only if it is the signature of a name with no dot and of a time that has not
  -- passed, under the key of the password.
  pub valid-IsSession :
      (now : ℕ) (token : String) → valid hmac hex a now token ≡ true → IsSession now token
  unfolding valid
  valid-IsSession now token h = elim (Option-cases (cut_at b'.' token)) [
    | inl e ↦ absurd (ground arith)
    | inr (u, e) ↦ elim (Option-cases (cut_at b'.' u.1)) [
      | inl f ↦ absurd (ground arith)
      | inr (w, f) ↦ elim (Option-cases (atoi w.0)) [
        | inl g ↦ absurd (ground arith)
        | inr (expiry, g) ↦
            let (fresh, signed) = is_signed-cases now token u.0 expiry (ground arith) in
            record {
              id = u.0;
              expiry = expiry;
              whole = cut_at-before token u.0 u.1 e;
              signed = signed;
              fresh = fresh;
            }
      ]
    ]
  ]

  -- What follows the name in a token.
  abbrev after_name : String → ℤ → String
  after_name id expiry =
      String.◌++◌ (itoa expiry) (String.◌++◌ "." (hex (hmac a.key (session_body id expiry))))

  sign-parts :
      (id : String) (expiry : ℤ)
      → sign hmac hex a id expiry ≡ String.◌++◌ id (String.◌++◌ "." (after_name id expiry))
  unfolding sign session_body
  sign-parts id expiry =
      let mac = String.◌++◌ "." (hex (hmac a.key (session_body id expiry))) in
      append_assoc id (String.◌++◌ "." (itoa expiry)) mac
      ∙ ap (String.◌++◌ id) (append_assoc "." (itoa expiry) mac)

  valid-cut :
      (now : ℕ) (token id rest text mac : String) (expiry : ℤ)
      → cut_at b'.' token ≡ some (id, rest)
      → cut_at b'.' rest ≡ some (text, mac)
      → atoi text ≡ some expiry
      → valid hmac hex a now token ≡ is_signed hmac hex a now token id expiry
  unfolding valid
  valid-cut now token id rest text mac expiry e f g = rw (e, valid, f, g) refl

  -- A signed session is valid until it expires.
  pub valid-sign :
      (now n : ℕ) (id : String)
      → contains_code b'.' id ≡ false
      → n ≤ max_int
      → is_after now (pos n) ≡ false
      → valid hmac hex a now (sign hmac hex a id (pos n)) ≡ true
  unfolding is_signed
  valid-sign now n id whole m fresh =
      let mac = hex (hmac a.key (session_body id (pos n))) in
      let first =
        ap (cut_at b'.') (sign-parts id (pos n)) ∙ cut_at-append id (after_name id (pos n)) whole in
      let second = cut_at-append (itoa (pos n)) mac (contains-itoa b'.' n (omega arith)) in
      let token = sign hmac hex a id (pos n) in
      valid-cut now token id (after_name id (pos n)) (itoa (pos n)) mac (pos n) first second
        (atoi-itoa n m)
      ∙ ground (arith, fresh)
