-- ===== src/Wire/WebSocket/Dial.antt =====
-- pkg/websocket/conn.go: opening a connection, its options, and which failures may be retried. The
-- dialer and the decoder of JSON are parameters; errors are their texts.
use Prim.Native.String
use piko.Prelude.{
  ℕ, ◌*◌, Bool, true, false, Option, none, some, List, [], ◌∷◌, ◌++◌, ◌==◌, if◌then◌else◌, Result,
  ok, err, String, same, ite,
}
use piko.Prelude.Int.{pos}
use piko.Prelude.Text.{itoa, cut_prefix}

-- `retryableStatusCodes`
abbrev pub retryable_status_codes : List ℕ
retryable_status_codes = 408 ∷ 429 ∷ 500 ∷ 502 ∷ 503 ∷ 504 ∷ []

unfoldable pub contains : ℕ → List ℕ → Bool
contains n [] = false
contains n (m ∷ ms) = let rest = contains n ms in if m == n then true else rest

-- A `RetryableError` or another.
pub data Error : Type 0 where
  retryable plain : String → Error

abbrev pub buffer_size : ℕ
buffer_size = 64 * 1024

pub data DialOption (Tls Url : Type 0) : Type 0 where
  token_option tenant_id_option : String → DialOption Tls Url
  proxy_url_option : Option Url → DialOption Tls Url
  tls_config_option : Option Tls → DialOption Tls Url
  compression_option : Bool → DialOption Tls Url

-- `dialOptions`; an absent pointer is `none`.
pub record DialOptions (Tls Url : Type 0) : Type 0 where
  pub token : String
  pub tenant_id : String
  pub tls_config : Option Tls
  pub proxy_url : Option Url
  pub compression : Bool

abbrev pub no_options : {Tls Url : Type 0} → DialOptions Tls Url
no_options = record {
  token = "";
  tenant_id = "";
  tls_config = none;
  proxy_url = none;
  compression = false;
}

-- `apply`
unfoldable pub apply :
    {Tls Url : Type 0} → DialOption Tls Url → DialOptions Tls Url → DialOptions Tls Url
apply (token_option t) o = record o { token = t }
apply (tenant_id_option t) o = record o { tenant_id = t }
apply (proxy_url_option u) o = record o { proxy_url = u }
apply (tls_config_option c) o = record o { tls_config = c }
apply (compression_option b) o = record o { compression = b }

unfoldable pub apply_all :
    {Tls Url : Type 0} → List (DialOption Tls Url) → DialOptions Tls Url → DialOptions Tls Url
unfolding apply
apply_all [] o = o
apply_all (x ∷ xs) o = apply_all xs (apply x o)

-- The dialer that `Dial` sets up.
pub record Dialer (Tls Url : Type 0) : Type 0 where
  pub handshake_timeout_seconds : ℕ
  pub read_buffer_size : ℕ
  pub write_buffer_size : ℕ
  pub enable_compression : Bool
  pub proxy : Option Url
  pub tls_client_config : Option Tls

unfoldable pub dialer_of : {Tls Url : Type 0} → DialOptions Tls Url → Dialer Tls Url
dialer_of o = record {
  handshake_timeout_seconds = 60;
  read_buffer_size = buffer_size;
  write_buffer_size = buffer_size;
  enable_compression = o.compression;
  proxy = o.proxy_url;
  tls_client_config = o.tls_config;
}

-- The headers of the request, each set at most once.
unfoldable pub header_of : {Tls Url : Type 0} → DialOptions Tls Url → List (String × String)
header_of o =
    ite (same o.token "") [] (("Authorization", String.◌++◌ "Bearer " o.token) ∷ [])
    ++ ite (same o.tenant_id "") [] (("x-piko-tenant-id", o.tenant_id) ∷ [])

pub record Response : Type 0 where
  pub status_code : ℕ
  pub content_type : String
  pub body : String

-- A failed dial's error message: the one of a JSON response, where it can be decoded.
unfoldable pub error_text : (String → Option String) → Response → String → String
unfolding cut_prefix
error_text decode r message = elim (cut_prefix "application/json" r.content_type) [
  | none ↦ message
  | some rest ↦ elim (decode r.body) [ none ↦ message | some m ↦ m ]
]

unfoldable pub failure_of : (String → Option String) → Option Response → String → Error
unfolding error_text contains
failure_of decode none message = retryable message
failure_of decode (some r) message =
    let text =
      String.◌++◌ (itoa (pos r.status_code)) (String.◌++◌ ": " (error_text decode r message)) in
    if contains r.status_code retryable_status_codes then retryable text else plain text

-- `Dial`; `dial_context` is the dialer's, which returns a connection, or an error's text and the
-- response that there may be with it.
unfoldable pub dial :
    {Tls Url Conn : Type 0}
    → (Dialer Tls Url → String → List (String × String) → Result (Option Response × String) Conn)
    → (String → Option String)
    → String
    → List (DialOption Tls Url)
    → Result Error Conn
unfolding apply_all dialer_of header_of failure_of
dial dial_context decode u opts =
    let o = apply_all opts no_options in
    elim (dial_context (dialer_of o) u (header_of o)) [
      | ok c ↦ ok c
      | err (r, message) ↦ err (failure_of decode r message)
    ]
