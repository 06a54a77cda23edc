-- ===== src/Upstream/Server.antt =====
-- server/upstream/server.go: `Server`, which accepts the connections of upstream services. A session
-- is its pointer; `none` is a panic. Floating point, the classes of runes and the libraries of the
-- connections are parameters.
pub mod Names
pub mod Shedding
use mathlib.Core.Option
use piko.Prelude.{
  ℕ,
  zero,
  suc,
  ◌+◌,
  ◌==◌,
  ltb,
  leb,
  not,
  ◌||◌,
  ◌&&◌,
  Bool,
  true,
  false,
  Option,
  none,
  some,
  List,
  [],
  ◌∷◌,
  ◌++◌,
  String,
  length,
  if◌then◌else◌,
  Int.{ℤ, pos, negsuc},
}
use piko.Auth.Tenants.{Token, endpoint_permitted}
use piko.Cluster.State
use piko.Cluster.State.{State}
use piko.Upstream.Balancer.{Conn}
use piko.Upstream.Manager.{Manager, Effects, add_conn, remove_conn}

abbrev pub max_name_len : ℕ
max_name_len = 64

-- utf8.RuneError
abbrev pub rune_error : ℕ
rune_error = 65533

-- The runes of a text that a test does not drop.
unfoldable pub keep : (ℕ → Bool) → List ℕ → List ℕ
keep drop [] = []
keep drop (r ∷ rs) = if drop r then keep drop rs else r ∷ keep drop rs

unfoldable pub trim_left : (ℕ → Bool) → List ℕ → List ℕ
trim_left is_space [] = []
trim_left is_space (r ∷ rs) = if is_space r then trim_left is_space rs else r ∷ rs

-- A rune in front of a text that has been trimmed at its end.
unfoldable pub push_trimmed : (ℕ → Bool) → ℕ → List ℕ → List ℕ
push_trimmed is_space r [] = if is_space r then [] else r ∷ []
push_trimmed is_space r (s ∷ rs) = r ∷ s ∷ rs

unfoldable pub trim_right : (ℕ → Bool) → List ℕ → List ℕ
unfolding push_trimmed
trim_right is_space [] = []
trim_right is_space (r ∷ rs) = push_trimmed is_space r (trim_right is_space rs)

unfoldable pub take : ℕ → List ℕ → List ℕ
take zero rs = []
take (suc n) [] = []
take (suc n) (r ∷ rs) = r ∷ take n rs

-- `sanitizeName`, of the runes of a name; what is no UTF-8 stands in it as RuneError.
unfoldable pub sanitize_name : (ℕ → Bool) → (ℕ → Bool) → List ℕ → List ℕ
unfolding keep trim_left trim_right take
sanitize_name is_control is_space name =
    let kept = keep (λ r. (r == rune_error) || is_control r) name in
    let trimmed = trim_right is_space (trim_left is_space kept) in
    if ltb max_name_len (length trimmed) then take max_name_len trimmed else trimmed

-- The operations of float64 that `Rebalance` uses; `to_int` cuts off the fraction.
pub record Floats (F : Type 0) : Type 0 where
  pub of_int : ℤ → F
  pub of_difference : ℤ → ℤ → F
  pub div : F → F → F
  pub mul : F → F → F
  pub lt : F → F → Bool
  pub ceil : F → F
  pub to_int : F → ℤ

-- `RebalanceConfig`
pub record RebalanceConfig (F : Type 0) : Type 0 where
  pub threshold : F
  pub shed_rate : F
  pub min_conns : ℕ

-- `Server`, less what it only holds for others: the sessions are in the order of a range. Its cluster
-- state is the one of the manager.
pub record Server (F : Type 0) : Type 0 where
  pub sessions : List ℕ
  pub rebalance_config : RebalanceConfig F
  pub manager : Manager

-- k >= n
unfoldable pub reached : ℤ → ℕ → Bool
reached (pos n) k = leb n k
reached (negsuc n) k = true

-- The loop of `shedSessions`, with the number of sessions it has taken.
unfoldable pub shed_from : ℤ → ℕ → List ℕ → List ℕ
unfolding reached
shed_from n k [] = []
shed_from n k (s ∷ ss) =
    let rest = shed_from n (k + 1) ss in s ∷ (if reached n (k + 1) then [] else rest)

-- `shedSessions`: the sessions that it closes.
unfoldable pub shed_sessions : ℤ → List ℕ → List ℕ
unfolding shed_from
shed_sessions n sessions = shed_from n 0 sessions

-- How many connections to shed, or `none` to skip; `local` of them are open.
unfoldable pub to_shed : {F : Type 0} → Floats F → RebalanceConfig F → ℕ → ℤ → Option ℤ
to_shed fl conf open_sessions avg =
    let balance = fl.div (fl.of_difference (pos open_sessions) avg) (fl.of_int avg) in
    let wanted = fl.mul (fl.of_int (pos open_sessions)) balance in
    let most = fl.mul (fl.of_int avg) conf.shed_rate in
    if fl.lt balance conf.threshold
    then none
    else some (fl.to_int (if fl.lt most wanted then fl.ceil most else wanted))

-- `Rebalance`: the sessions that it closes.
unfoldable pub rebalance : {F : Type 0} → Floats F → Server F → Option (List ℕ)
unfolding to_shed shed_sessions State.avg_conns
rebalance fl s =
    let open_sessions = length s.sessions in
    if leb (length s.manager.cluster.nodes) 1
    then some []
    else if (open_sessions == 0) || ltb open_sessions s.rebalance_config.min_conns
    then some []
    else Option.map
        (λ avg. elim (to_shed fl s.rebalance_config open_sessions avg) [
          | none ↦ []
          | some n ↦ shed_sessions n s.sessions
        ])
        (State.avg_conns s.manager.cluster)

-- `addSession`
unfoldable pub add_session : ℕ → List ℕ → List ℕ
add_session p [] = p ∷ []
add_session p (s ∷ ss) = let rest = add_session p ss in if s == p then s ∷ ss else s ∷ rest

-- `removeSession`
unfoldable pub remove_session : ℕ → List ℕ → List ℕ
remove_session p [] = []
remove_session p (s ∷ ss) = let rest = remove_session p ss in if s == p then rest else s ∷ rest

-- `upstreamRoute` once the connection is up, until it waits for its end.
unfoldable pub connect : {F : Type 0} → ℕ → Conn → Server F → Option (Server F × Effects)
unfolding add_session add_conn
connect session c s =
    Option.map (λ r. (record s { sessions = add_session session s.sessions; manager = r.0 }, r.1))
      (add_conn c s.manager)

-- Its deferred calls, when the connection has ended.
unfoldable pub disconnect : {F : Type 0} → ℕ → Conn → Server F → Option (Server F × Effects)
unfolding remove_session remove_conn
disconnect session c s =
    Option.map
      (λ r. (record s { sessions = remove_session session s.sessions; manager = r.0 }, r.1))
      (remove_conn c s.manager)

-- How `upstreamRoute` answers a request.
pub data Answer : Type 0 where
  not_permitted upgrade_failed : Answer
  -- until the token expires, if it does
  serving : Option ℕ → Answer

unfoldable pub is_permitted : Option Token → String → Bool
unfolding endpoint_permitted
is_permitted none id = true
is_permitted (some t) id = endpoint_permitted t id

unfoldable pub deadline : Option Token → Option ℕ
deadline none = none
deadline (some t) = if t.expiry == 0 then none else some t.expiry

-- `upstreamRoute` up to its wait. `upgrades` is whether the client's upgrade succeeds, `text` makes
-- a text of runes.
unfoldable pub upstream_route :
    {F : Type 0}
    → (ℕ → Bool)
    → (ℕ → Bool)
    → (List ℕ → String)
    → Bool
    → ℕ
    → ℕ
    → String
    → String
    → List ℕ
    → Option Token
    → Server F
    → Option (Answer × Server F × Effects)
unfolding is_permitted deadline sanitize_name connect
upstream_route is_control is_space text upgrades session now client_ip id name token s =
    let c : Conn = record {
      pointer = session;
      endpoint_id = id;
      name = text (sanitize_name is_control is_space name);
      addr = client_ip;
      connected_at = now;
    } in
    if not (is_permitted token id)
    then some (not_permitted, s, [])
    else if not upgrades
    then some (upgrade_failed, s, [])
    else Option.map (λ r. (serving (deadline token), r.0, r.1)) (connect session c s)
