-- ===== src/Client/Listener.antt =====
-- client/listener.go and client/forwarder.go: accepting connections over a session with the server,
-- which is replaced where it breaks. A session is a number that stands for its pointer, and an
-- accepted stream is another. What the session and the network do is a parameter of each call.
pub mod Sessions
use piko.Prelude.{
  ℕ, String, Bool, true, false, Option, none, some, List, [], ◌∷◌, ◌++◌, ◌||◌, if◌then◌else◌,
}
use piko.Client.Upstream.{Outcome, Session, connected, cancelled, failed, trying}

-- What is done to sessions and streams.
pub data Effect : Type 0 where
  opened closed gone_away forwarded : ℕ → Effect

abbrev pub Effects : Type 0
Effects = List Effect

-- `listener`
pub record Listener : Type 0 where
  pub endpoint_id : String
  pub sess : Option ℕ
  -- closeCtx is done
  pub is_closed : Bool

-- `newListener`
unfoldable pub new_listener : String → Listener
new_listener endpoint_id = record { endpoint_id = endpoint_id; sess = none; is_closed = false }

-- What an accept of the session returns: a stream, or an error, of which count whether the caller's
-- context is done and whether the session is shut down; and what connecting again then returns.
pub data Event : Type 0 where
  stream : ℕ → Event
  broken : Bool → Bool → Outcome ℕ → Event

-- The errors of an accept.
pub data Error : Type 0 where
  context_done not_listening : Error
  connect_failed : Outcome ℕ → Error

-- What an accept has come to; `waiting` has not returned.
pub data Accepted : Type 0 where
  accepted : ℕ → Accepted
  stopped : Error → Accepted
  waiting : Accepted

unfoldable pub close_old : Option ℕ → Effects
close_old none = []
close_old (some n) = closed n ∷ []

-- The end of `connect`: the new session replaces the old one, which is closed.
unfoldable pub replace : Listener → ℕ → Listener × Effects
unfolding close_old
replace l n = (record l { sess = some n }, opened n ∷ close_old l.sess)

-- `AcceptWithContext`, over what its calls of the session return.
unfoldable pub accept : Listener → List Event → Accepted × Listener × Effects
unfolding replace
accept l [] = (waiting, l, [])
accept l (stream c ∷ es) = (accepted c, l, [])
accept l (broken is_done is_shutdown next ∷ es) =
    if is_done
    then (stopped context_done, l, [])
    else if is_shutdown
    then (stopped not_listening, l, [])
    else elim next [
      | connected s ↦ let m = replace l s.conn in let r = accept m.0 es in (r.0, r.1, m.1 ++ r.2)
      | cancelled ↦ (stopped (connect_failed cancelled), l, [])
      | failed e ↦ (stopped (connect_failed (failed e)), l, [])
      | trying ↦ (waiting, l, [])
    ]

-- `Listen`: `none` is its error.
unfoldable pub listen : String → Outcome ℕ → Option (Listener × Effects)
unfolding new_listener replace
listen endpoint_id (connected s) = some (replace (new_listener endpoint_id) s.conn)
listen endpoint_id cancelled = none
listen endpoint_id (failed e) = none
listen endpoint_id trying = none

-- `Close`
unfoldable pub close : Listener → Listener × Effects
close l = (record l { is_closed = true }, elim l.sess [ none ↦ [] | some n ↦ gone_away n ∷ [] ])

-- `Shutdown`
unfoldable pub shutdown : Listener → Listener × Effects
unfolding close_old
shutdown l = (record l { is_closed = true }, close_old l.sess)

-- The loop of the forwarder's `accept`, with the events of each of its calls, and its deferred call:
-- the error that it returns, or `none` where it runs on.
unfoldable pub accept_loop : Listener → List (List Event) → Option Error × Listener × Effects
unfolding accept shutdown
accept_loop l [] = (none, l, [])
accept_loop l (es ∷ calls) =
    let (a, m, fx) = accept l es in
    elim a [
      | accepted c ↦ let r = accept_loop m calls in (r.0, r.1, fx ++ forwarded c ∷ r.2)
      | stopped e ↦ let (k, gx) = shutdown m in (some e, k, fx ++ gx)
      | waiting ↦ (none, m, fx)
    ]

-- `ListenAndForward`, and what its forwarder does; `none` is the error of its connect.
unfoldable pub listen_and_forward :
    String → Outcome ℕ → List (List Event) → Option (Option Error × Listener × Effects)
unfolding listen accept_loop
listen_and_forward endpoint_id first calls = elim (listen endpoint_id first) [
  | none ↦ none
  | some (l, fx) ↦ let r = accept_loop l calls in some (r.0, r.1, fx ++ r.2)
]

-- `Wait`, of the forwarder: whether the context of the group has an error when the group's wait has
-- returned, and the error that it returned.
unfoldable pub is_graceful : Error → Bool
is_graceful context_done = false
is_graceful not_listening = true
is_graceful (connect_failed o) = false

unfoldable pub wait : Bool → Option Error → Option Error
unfolding is_graceful
wait is_done none = none
wait is_done (some e) = if is_done || is_graceful e then none else some e
