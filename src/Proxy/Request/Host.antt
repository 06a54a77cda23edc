-- ===== src/Proxy/Request/Host.antt =====
-- server/proxy/server.go and pkg/auth/jwtverifier.go: the endpoint of a host, in a request and in a
-- token.
use Prim.Native.Char.{code}
use piko.Prelude.{
  ℕ,
  String,
  ◌≡◌,
  refl,
  ap,
  ◌≢◌,
  Bool,
  Bool-cases,
  ◌==◌,
  true,
  false,
  Option,
  some,
  inl,
  inr,
  arith,
  Text.{cut_at, contains_code},
}
use piko.Auth.Claims.{endpoint_id_from_claim}
use piko.Proxy.Request.{Request, get, host_of, bottom_level, endpoint_id_from_request}

cut_at_found :
    (b : ℕ) (s : String)
    → contains_code b s ≡ true
    → (name rest : String) × (cut_at b s ≡ some (name, rest))
unfolding cut_at contains_code
cut_at_found b String.[] h = absurd (ground arith)
cut_at_found b (String.◌∷◌ c s) h = elim (Bool-cases (code c == b)) [
  | inl here ↦ ("", s, rw here refl)
  | inr there ↦
      let (name, rest, e) = cut_at_found b s (ground arith) in
      (String.◌∷◌ c name, rest, rw (there, e) refl)
]

-- A request that names its endpoint by the host alone, where the host is not an IP address and has
-- a domain below a first label that is not empty: its endpoint is the one that the host is reduced
-- to as the claim of a token.
pub endpoint_id_from_request-claim :
    (split_host_port : String → Option (String × String)) (is_ip : String → Bool) (r : Request)
    → get "x-piko-endpoint" r ≡ ""
    → is_ip (host_of split_host_port r.host) ≡ false
    → contains_code b'.' (host_of split_host_port r.host) ≡ true
    → bottom_level (host_of split_host_port r.host) ≢ ""
    → endpoint_id_from_request split_host_port is_ip r
      ≡ endpoint_id_from_claim (host_of split_host_port r.host)
unfolding endpoint_id_from_request endpoint_id_from_claim bottom_level contains_code
endpoint_id_from_request-claim split_host_port is_ip r unnamed name dotted not_empty =
    let host = host_of split_host_port r.host in
    let (label, rest, e) = cut_at_found b'.' host dotted in
    let reduced : bottom_level host ≡ endpoint_id_from_claim host = ground arith in
    let given : host ≢ "" = λ z. ground (arith, ap (contains_code b'.') z) in ground arith
