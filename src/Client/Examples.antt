-- ===== src/Client/Examples.antt =====
-- A client that connects at its third attempt, and one that reconnects.
use piko.Prelude.{ℕ, ◌≡◌, refl, inl, ◌⊎◌, true, false, Option, none, some, List, [], ◌∷◌, ok, err}
use piko.Prelude.Int.{ℤ, pos}
use piko.Client.Upstream.{Upstream, Library, Attempt, Session, connected, trying}
use piko.Client.Listener.{
  Event, stream, broken, Listener, Effects, Error, opened, closed, forwarded, listen_and_forward,
  not_listening, listen, accept_loop, accept, replace, close_old, shutdown, new_listener,
}
use piko.Client.Listener.Sessions.{Does, listen_and_forward-Released}

abbrev settings : Upstream Unit
settings = record {
  url = none;
  token = "";
  tenant_id = "";
  name = "";
  tls_config = none;
  proxy_url = none;
  min_reconnect_backoff = pos 0;
  max_reconnect_backoff = pos 0;
  max_window_size = 0;
  compression = false;
}

abbrev library : Library
library = record { print = λ u. u.host; set_name = λ query name. name; decode = λ body. none }

no_jitter : ℤ → ℤ
no_jitter w = w

abbrev refused : Attempt Unit ℕ
refused = record {
  dial_context = λ dialer url headers. err (none, "connection refused");
  is_done = false;
  is_done_waiting = false;
}

abbrev answered : Attempt Unit ℕ
answered = record {
  dial_context = λ dialer url headers. ok 5;
  is_done = false;
  is_done_waiting = false;
}

abbrev session : ℕ → Session ℕ
session n = record { conn = n; max_window_size = 0 }

abbrev calls : List (List Event)
calls =
    (stream 7 ∷ [])
    ∷ (broken false false (connected (session 2)) ∷ stream 8 ∷ [])
    ∷ (broken false true trying ∷ [])
    ∷ []

abbrev outcome : Option Error × Listener × Effects
outcome = (
  some not_listening,
  record { endpoint_id = "web"; sess = some 2; is_closed = true },
  opened 1 ∷ forwarded 7 ∷ opened 2 ∷ closed 1 ∷ forwarded 8 ∷ closed 2 ∷ [],
)

listen_and_forward-Released_example :
    Does (closed 1) outcome.2 ⊎ ((outcome.0 ≡ none) × (outcome.1.sess ≡ some 1))
unfolding listen_and_forward listen accept_loop accept replace close_old shutdown new_listener
listen_and_forward-Released_example =
    listen_and_forward-Released "web" (connected (session 1)) calls outcome refl 1 (inl refl)
