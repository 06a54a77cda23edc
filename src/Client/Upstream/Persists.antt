-- ===== src/Client/Upstream/Persists.antt =====
-- client/upstream.go: a client gets through in the end.
use piko.Prelude.{◌≡◌, String, false, List, [], ◌∷◌, err}
use piko.Prelude.Int.{ℤ}
use piko.Backoff.{Backoff}
use piko.Wire.WebSocket.Dial.{retryable}
use piko.Client.Upstream.{Upstream, Library, Attempt, attempt}

module _ {Tls Conn : Type 0} (lib : Library) (jitter : ℤ → ℤ) (u : Upstream Tls)
    (endpoint_id : String) where
  -- An attempt that fails in a way that is retried, while the context is not done.
  pub record IsRetried (a : Attempt Tls Conn) : Type 0 where
    pub message : String
    pub fails : attempt lib jitter u endpoint_id a ≡ err (retryable message)
    pub goes_on : a.is_done ≡ false
    pub waits : a.is_done_waiting ≡ false

  abbrev pub AllRetried : List (Attempt Tls Conn) → Type 0
  AllRetried [] = Unit {0}
  AllRetried (a ∷ more) = IsRetried a × AllRetried more
