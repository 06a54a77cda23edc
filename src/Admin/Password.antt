-- ===== src/Admin/Password.antt =====
-- server/admin/password.go: the password and the signed sessions. A slice of bytes is a text of
-- characters below 256. HMAC-SHA256 and hex.EncodeToString are parameters.
pub mod Signed
use Prim.Native.Char.{code}
use Prim.Native.String
use mathlib.Core.Option
use piko.Prelude.{
  ℕ,
  ◌+◌,
  ◌*◌,
  ◌/◌,
  ◌%◌,
  ltb,
  leb,
  ◌==◌,
  ◌&&◌,
  ◌||◌,
  String,
  Bool,
  true,
  false,
  not,
  Option,
  none,
  some,
  same,
  ite,
  if◌then◌else◌,
  Text.{cut_at, atoi, itoa},
}
use piko.Prelude.Int.{ℤ, pos, negsuc, add_int}

abbrev pub second : ℕ
second = 1000000000

-- `sessionTTL`, in seconds
abbrev pub session_ttl : ℕ
session_ttl = 12 * 60 * 60

-- `failedLoginDelay`
abbrev pub failed_login_delay : ℕ
failed_login_delay = 500000000

-- The seconds from the year 1, where a time.Time counts from, to 1970.
abbrev pub unix_to_internal : ℕ
unix_to_internal = 62135596800

-- time.Now().After(time.Unix(expiry, 0)): the seconds are an int64 in time.Time too.
unfoldable pub is_after : ℕ → ℤ → Bool
unfolding add_int
is_after now expiry = elim (add_int expiry (pos unix_to_internal)) [
  | pos s ↦ let n = now / second + unix_to_internal in ltb s n || (s == n && ltb 0 (now % second))
  | negsuc s ↦ true
]

-- `passwordAuth`
pub record PasswordAuth : Type 0 where
  pub password : String
  pub key : String

-- The cookie of a session, `sessionCookie`: its path is "/", it is for HTTP only, and it is sent to
-- the same site only.
pub record Cookie : Type 0 where
  pub value : String
  pub max_age : ℤ
  pub secure : Bool

-- What is signed of a session.
unfoldable pub session_body : String → ℤ → String
unfolding itoa
session_body id expiry = String.◌++◌ id (String.◌++◌ "." (itoa expiry))

module _ (hmac : String → String → String) (hex : String → String) where
  -- `newPasswordAuth`
  unfoldable pub new_password_auth : String → PasswordAuth
  new_password_auth password = record {
    password = password;
    key = hmac password "piko-admin-session-key/v1";
  }

  -- `sign`
  unfoldable pub sign : PasswordAuth → String → ℤ → String
  unfolding session_body
  sign a id expiry =
      let body = session_body id expiry in
      String.◌++◌ body (String.◌++◌ "." (hex (hmac a.key body)))

  -- `newSession`, of what rand.Read gives; `none` is its error.
  unfoldable pub new_session : PasswordAuth → Option String → ℤ → Option String
  unfolding sign
  new_session a random expiry = Option.map (λ id. sign a (hex id) expiry) random

  -- The last tests of `valid`, of a token that is cut and whose expiry is read.
  unfoldable pub is_signed : PasswordAuth → ℕ → String → String → ℤ → Bool
  unfolding is_after sign
  is_signed a now token id expiry =
      if is_after now expiry then false else ite (same token (sign a id expiry)) true false

  -- `valid`
  unfoldable pub valid : PasswordAuth → ℕ → String → Bool
  unfolding cut_at atoi is_signed
  valid a now token = elim (cut_at b'.' token) [
    | none ↦ false
    | some (id, rest) ↦ elim (cut_at b'.' rest) [
      | none ↦ false
      | some (expiry_str, _) ↦ elim (atoi expiry_str) [
        | none ↦ false
        | some expiry ↦ is_signed a now token id expiry
      ]
    ]
  ]
