-- ===== src/Proxy/Http/Hops.antt =====
-- server/proxy: a request goes from one node to another once at most.
use piko.Prelude.{
  ℕ, String, ◌≡◌, refl, sym, ap, ◌∙◌, ◌≢◌, Bool, true, false, Bool-cases, not, Option, none, some,
  Option-cases, inl, inr, lookup, lookup-insert, Result, ok, err, arith,
}
use piko.Upstream.Balancer
use piko.Upstream.Balancer.{Conn, Upstream, conn, remote, forward}
use piko.Upstream.Manager.{Manager, Effects, select}
use piko.Proxy.Request.{Request, get, set}
use piko.Proxy.Http.{
  Proxied, Outcome, Handled, SessionError, reverse_proxy, is_forwarded, serve_with_upstream,
  serve_http, serve_tcp, serve_selected, serve_conn, after_dial, dial_conn, with_selected,
}

-- The request of the reverse proxy carries the mark of a forwarded request.
is_forwarded-serve_with_upstream :
    (timeout : ℕ) (r : Request) (id : String) (u : Upstream)
    → is_forwarded (serve_with_upstream timeout r id u).request ≡ true
unfolding is_forwarded serve_with_upstream get set
is_forwarded-serve_with_upstream timeout r id u =
    ground (arith, lookup-insert "x-piko-forward" "x-piko-forward" "true" r.headers)

-- Without leave to select other nodes, what is selected is a listener of this one.
select-local :
    (id : String) (m n : Manager) (u : Upstream) (e : Effects)
    → select id false m ≡ some (some u, true, n, e)
    → forward u ≡ false
unfolding select forward
select-local id m n u e h = elim (Option-cases (lookup id m.local_upstreams)) [
  | inl missing ↦ absurd (ground arith)
  | inr (lb, found) ↦ elim (Option-cases (Balancer.next lb)) [
    | inl panics ↦ absurd (ground arith)
    | inr ((none, rest), chosen) ↦ absurd (ground arith)
    | inr ((some c, rest), chosen) ↦ let is_conn : u ≡ conn c = ground arith in rw is_conn refl
  ]
]

-- A node's handlers of a request: how they leave it, for one of the node's states and endpoints.
pub data Serves (C : Type 0) (r : Request) (o : Outcome C) : Type 0 where
  by_http :
      (timeout : ℕ) (id : String) (m n : Manager) (e : Effects)
      → serve_http timeout r id m ≡ some (o, n, e)
      → Serves C r o
  by_tcp :
      (open_stream : Conn → Result SessionError C) (upgrades : Bool) (timeout : ℕ) (id : String)
      (m n : Manager) (e : Effects)
      → serve_tcp open_stream upgrades timeout r id m ≡ some (o, n, e)
      → Serves C r o

-- What a handler leaves comes from a selected upstream, if it goes to the reverse proxy.
with_selected-reverse_proxy :
    {C : Type 0} (use_it : Upstream → Manager → Effects → Handled C)
    (s : Option (Option Upstream × Bool × Manager × Effects)) (p : Proxied) (n : Manager)
    (e : Effects)
    → with_selected use_it s ≡ some (reverse_proxy p, n, e)
    → (u : Upstream) × (m : Manager) × (f : Effects) × (s ≡ some (some u, true, m, f))
      × (use_it u m f ≡ some (reverse_proxy p, n, e))
unfolding with_selected
with_selected-reverse_proxy use_it none p n e h = absurd (ground arith)
with_selected-reverse_proxy use_it (some (u, false, m, f)) p n e h = absurd (ground arith)
with_selected-reverse_proxy use_it (some (none, true, m, f)) p n e h = absurd (ground arith)
with_selected-reverse_proxy use_it (some (some u, true, m, f)) p n e h = (u, m, f, refl, h)

-- A request for a listener of the node does not go to the reverse proxy from the TCP proxy.
serve_conn-local :
    {C : Type 0} (open_stream : Conn → Result SessionError C) (upgrades : Bool) (c : Conn)
    (m n : Manager) (e f : Effects) (p : Proxied)
    → serve_conn open_stream upgrades c m e ≢ some (reverse_proxy p, n, f)
unfolding serve_conn
serve_conn-local open_stream upgrades c m n e f p h =
    elim (Option-cases (after_dial (dial_conn open_stream c) c m)) [
      | inl panics ↦ ground arith
      | inr ((ok s, k, g), dialed) ↦ elim (Bool-cases upgrades) [
        | inl y ↦ ground arith
        | inr y ↦ ground arith
      ]
      | inr ((err x, k, g), dialed) ↦ ground arith
    ]

serve_selected-reverse_proxy :
    {C : Type 0} (open_stream : Conn → Result SessionError C) (upgrades : Bool) (timeout : ℕ)
    (r : Request) (id : String) (u : Upstream) (m n : Manager) (e f : Effects) (p : Proxied)
    → serve_selected open_stream upgrades timeout r id u m e ≡ some (reverse_proxy p, n, f)
    → p ≡ serve_with_upstream timeout r id u
unfolding serve_selected
serve_selected-reverse_proxy open_stream upgrades timeout r id (remote i x) m n e f p h =
    ground arith
serve_selected-reverse_proxy open_stream upgrades timeout r id (conn c) m n e f p h =
    absurd (serve_conn-local open_stream upgrades c m n e f p h)

-- How the reverse proxy gets a request.
Serves-reverse_proxy :
    (C : Type 0) (r : Request) (p : Proxied)
    → Serves C r (reverse_proxy p)
    → (timeout : ℕ) × (id : String) × (u : Upstream) × (m n : Manager) × (e : Effects) × (p
        ≡ serve_with_upstream timeout r id u)
      × (select id (not (is_forwarded r)) m ≡ some (some u, true, n, e))
unfolding serve_http serve_tcp
Serves-reverse_proxy C r p (by_http timeout id m n e h) =
    let (u, k, f, chosen, left) =
      with_selected-reverse_proxy _ (select id (not (is_forwarded r)) m) p n e h in
    (timeout, id, u, m, k, f, ground arith, chosen)
Serves-reverse_proxy C r p (by_tcp open_stream upgrades timeout id m n e h) =
    let (u, k, f, chosen, left) =
      with_selected-reverse_proxy _ (select id (not (is_forwarded r)) m) p n e h in
    (
      timeout,
      id,
      u,
      m,
      k,
      f,
      serve_selected-reverse_proxy open_stream upgrades timeout r id u k n f e p left,
      chosen,
    )

-- A request that one node's handler gave to the reverse proxy arrives at a node, which may be any,
-- with its x-piko-forward header: if a handler of that node gives it to the reverse proxy again, it
-- is for a listener of that node, so that no request is passed on twice.
pub Serves-once :
    (C : Type 0) (r arrived : Request) (p q : Proxied)
    → Serves C r (reverse_proxy p)
    → get "x-piko-forward" arrived ≡ get "x-piko-forward" p.request
    → Serves C arrived (reverse_proxy q)
    → forward q.upstream ≡ false
unfolding is_forwarded serve_with_upstream
Serves-once C r arrived p q first kept second =
    let (t, id, u, m, n, e, is_p, chosen) = Serves-reverse_proxy C r p first in
    let (t', id', u', m', n', e', is_q, chosen') = Serves-reverse_proxy C arrived q second in
    let marked : is_forwarded p.request ≡ true =
      ap (λ x. is_forwarded x.request) is_p ∙ is_forwarded-serve_with_upstream t r id u in
    let still : is_forwarded arrived ≡ true = ground (arith, marked, kept) in
    ap (λ x. forward x.upstream) is_q
    ∙ select-local id' m' n' u' e' (ap (λ b. select id' (not b) m') (sym still) ∙ chosen')
