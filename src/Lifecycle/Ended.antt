-- ===== src/Lifecycle/Ended.antt =====
-- server/server.go: servers of a node that end of themselves, anywhere in its life.
use piko.Prelude.{
  ◌≡◌, refl, ap, Bool, true, false, not, ◌||◌, List, [], ◌∷◌, Bool-cases, inl, inr, arith,
}
use piko.Lifecycle.{
  Server, admin, upstream, proxy, Event, Events, begin_shutdown, stop_jwks, serve, stop, ended,
  open_gossip, close_gossip, join_cluster, leave_cluster, rebalance, stop_rebalance, set_ready,
  unset_ready, all_ended, weave,
}
use piko.Lifecycle.State.{Running, accepts, after, is_stop, is_safe, all_safe}

-- A node but for its servers.
abbrev pub others : Running → Running
others n = record n { admin = false; upstream = false; proxy = false; failed = false }

-- The servers that are open, and whether one has ended, of two nodes of which the second is the same
-- but that servers of it may have ended.
pub record Fewer (a u p f a' u' p' f' : Bool) : Type 0 where
  pub admin : a' ≡ true → a ≡ true
  pub upstream : u' ≡ true → u ≡ true
  pub proxy : p' ≡ true → p ≡ true
  pub failed : f ≡ true → f' ≡ true
  pub admin_open : f' ≡ false → a' ≡ a
  pub upstream_open : f' ≡ false → u' ≡ u
  pub proxy_open : f' ≡ false → p' ≡ p

pub record IsLike (n m : Running) : Type 0 where
  pub others : others m ≡ others n
  pub servers : Fewer n.admin n.upstream n.proxy n.failed m.admin m.upstream m.proxy m.failed

IsLike-is_safe : (n m : Running) → IsLike n m → is_safe n ≡ true → is_safe m ≡ true
unfolding is_safe
IsLike-is_safe n m l h =
    let g : m.gossip ≡ n.gossip = ap (λ x. x.gossip) l.others in
    let r : m.ready ≡ n.ready = ap (λ x. x.ready) l.others in
    let b : m.rebalancing ≡ n.rebalancing = ap (λ x. x.rebalancing) l.others in
    let q : m.left ≡ n.left = ap (λ x. x.left) l.others in
    let f = l.servers in
    elim (Bool-cases m.failed) [
      | inl y ↦ ground (arith, g, r, b, q, f.admin, f.upstream, f.proxy, f.failed)
      | inr y ↦ ground (arith, g, r, b, q, f.admin_open y, f.upstream_open y, f.proxy_open y)
    ]

IsLike-accepts :
    (s : Server) (b : Bool) (n m : Running) → IsLike n m → IsLike (accepts s b n) (accepts s b m)
unfolding accepts
IsLike-accepts admin b n m l = record {
  others = l.others;
  servers =
      let f = l.servers in
      record {
        admin = λ h. h;
        upstream = f.upstream;
        proxy = f.proxy;
        failed = f.failed;
        admin_open = λ h. refl;
        upstream_open = f.upstream_open;
        proxy_open = f.proxy_open;
      };
}
IsLike-accepts upstream b n m l = record {
  others = l.others;
  servers =
      let f = l.servers in
      record {
        admin = f.admin;
        upstream = λ h. h;
        proxy = f.proxy;
        failed = f.failed;
        admin_open = f.admin_open;
        upstream_open = λ h. refl;
        proxy_open = f.proxy_open;
      };
}
IsLike-accepts proxy b n m l = record {
  others = l.others;
  servers =
      let f = l.servers in
      record {
        admin = f.admin;
        upstream = f.upstream;
        proxy = λ h. h;
        failed = f.failed;
        admin_open = f.admin_open;
        upstream_open = f.upstream_open;
        proxy_open = λ h. refl;
      };
}

-- A server that ends at the second of the two nodes.
IsLike-ended : (s : Server) (n m : Running) → IsLike n m → IsLike n (after (ended s) m)
unfolding after accepts
IsLike-ended admin n m l = record {
  others = l.others;
  servers =
      let f = l.servers in
      record {
        admin = λ h. absurd (ground (arith, h));
        upstream = f.upstream;
        proxy = f.proxy;
        failed = λ h. refl;
        admin_open = λ h. absurd (ground (arith, h));
        upstream_open = λ h. absurd (ground (arith, h));
        proxy_open = λ h. absurd (ground (arith, h));
      };
}
IsLike-ended upstream n m l = record {
  others = l.others;
  servers =
      let f = l.servers in
      record {
        admin = f.admin;
        upstream = λ h. absurd (ground (arith, h));
        proxy = f.proxy;
        failed = λ h. refl;
        admin_open = λ h. absurd (ground (arith, h));
        upstream_open = λ h. absurd (ground (arith, h));
        proxy_open = λ h. absurd (ground (arith, h));
      };
}
IsLike-ended proxy n m l = record {
  others = l.others;
  servers =
      let f = l.servers in
      record {
        admin = f.admin;
        upstream = f.upstream;
        proxy = λ h. absurd (ground (arith, h));
        failed = λ h. refl;
        admin_open = λ h. absurd (ground (arith, h));
        upstream_open = λ h. absurd (ground (arith, h));
        proxy_open = λ h. absurd (ground (arith, h));
      };
}

IsLike-failed :
    (n m : Running) → IsLike n m → IsLike (record n { failed = true }) (record m { failed = true })
IsLike-failed n m l = record {
  others = l.others;
  servers =
      let f = l.servers in
      record {
        admin = f.admin;
        upstream = f.upstream;
        proxy = f.proxy;
        failed = λ h. refl;
        admin_open = λ h. absurd (ground (arith, h));
        upstream_open = λ h. absurd (ground (arith, h));
        proxy_open = λ h. absurd (ground (arith, h));
      };
}

IsLike-after : (e : Event) (n m : Running) → IsLike n m → IsLike (after e n) (after e m)
unfolding after
IsLike-after stop_jwks n m l = l
IsLike-after join_cluster n m l = l
IsLike-after (serve s) n m l = IsLike-accepts s true n m l
IsLike-after (stop s stops) n m l = IsLike-accepts s false n m l
IsLike-after (ended s) n m l =
    IsLike-failed (accepts s false n) (accepts s false m) (IsLike-accepts s false n m l)
IsLike-after begin_shutdown n m l = record {
  others = ap (after begin_shutdown) l.others;
  servers = l.servers;
}
IsLike-after open_gossip n m l = record {
  others = ap (after open_gossip) l.others;
  servers = l.servers;
}
IsLike-after close_gossip n m l = record {
  others = ap (after close_gossip) l.others;
  servers = l.servers;
}
IsLike-after (leave_cluster leaves) n m l = record {
  others = ap (after (leave_cluster leaves)) l.others;
  servers = l.servers;
}
IsLike-after rebalance n m l = record {
  others = ap (after rebalance) l.others;
  servers = l.servers;
}
IsLike-after stop_rebalance n m l = record {
  others = ap (after stop_rebalance) l.others;
  servers = l.servers;
}
IsLike-after set_ready n m l = record {
  others = ap (after set_ready) l.others;
  servers = l.servers;
}
IsLike-after unset_ready n m l = record {
  others = ap (after unset_ready) l.others;
  servers = l.servers;
}

-- A step of a safe node.
record IsSafeStep (e : Event) (es : Events) (n : Running) : Type 0 where
  safe : is_safe n ≡ true
  in_order : not (is_stop e) || n.is_shutdown ≡ true
  rest : all_safe es (after e n) ≡ true

all_safe-IsSafeStep :
    (e : Event) (es : Events) (n : Running) → all_safe (e ∷ es) n ≡ true → IsSafeStep e es n
unfolding all_safe
all_safe-IsSafeStep e es n h = record {
  safe = ground arith;
  in_order = ground arith;
  rest = ground arith;
}

IsSafeStep-all_safe :
    (e : Event) (es : Events) (n : Running) → IsSafeStep e es n → all_safe (e ∷ es) n ≡ true
unfolding all_safe
IsSafeStep-all_safe e es n t = rw (t.safe, t.in_order, t.rest) refl

all_safe-safe : (es : Events) (n : Running) → all_safe es n ≡ true → is_safe n ≡ true
unfolding all_safe
all_safe-safe [] n h = h
all_safe-safe (e ∷ es) n h = (all_safe-IsSafeStep e es n h).safe

-- A step of a node of which servers may have ended, where the rest of its events is safe.
IsLike-IsSafeStep :
    (e : Event) (es rest : Events) (n m : Running)
    → IsLike n m
    → IsSafeStep e es n
    → all_safe rest (after e m) ≡ true
    → all_safe (e ∷ rest) m ≡ true
IsLike-IsSafeStep e es rest n m l t r = IsSafeStep-all_safe e rest m (record {
  safe = IsLike-is_safe n m l t.safe;
  in_order =
      let q : m.is_shutdown ≡ n.is_shutdown = ap (λ x. x.is_shutdown) l.others in rw q t.in_order;
  rest = r;
})

all_safe-like :
    (es : Events) (n m : Running) → IsLike n m → all_safe es n ≡ true → all_safe es m ≡ true
unfolding all_safe
all_safe-like [] n m l h = IsLike-is_safe n m l h
all_safe-like (e ∷ es) n m l h =
    let t = all_safe-IsSafeStep e es n h in
    IsLike-IsSafeStep e es es n m l t
      (all_safe-like es (after e n) (after e m) (IsLike-after e n m l) t.rest)

not-stop : (s : Server) (b : Bool) → not (is_stop (ended s)) || b ≡ true
unfolding is_stop
not-stop s b = refl

all_safe-all_ended :
    (ss : List Server) (es : Events) (n m : Running)
    → IsLike n m
    → is_safe n ≡ true
    → ((k : Running) → IsLike n k → all_safe es k ≡ true)
    → all_safe (all_ended ss es) m ≡ true
all_safe-all_ended [] es n m l h then = then m l
all_safe-all_ended (s ∷ ss) es n m l h then = IsSafeStep-all_safe (ended s) (all_ended ss es) m (
    let like = IsLike-ended s n m l in
    record {
      safe = IsLike-is_safe n m l h;
      in_order = not-stop s m.is_shutdown;
      rest = all_safe-all_ended ss es n _ like h then;
    })

pub all_safe-weave :
    (ends : List (List Server)) (es : Events) (n m : Running)
    → IsLike n m
    → all_safe es n ≡ true
    → all_safe (weave ends es) m ≡ true
unfolding weave all_safe
all_safe-weave [] es n m l h = all_safe-like es n m l h
all_safe-weave (ss ∷ more) [] n m l h =
    all_safe-all_ended ss [] n m l h (λ k q. IsLike-is_safe n k q h)
all_safe-weave (ss ∷ more) (e ∷ es) n m l h =
    let t = all_safe-IsSafeStep e es n h in
    all_safe-all_ended ss (e ∷ weave more es) n m l t.safe λ k q.
      IsLike-IsSafeStep e es (weave more es) n k q t
        (all_safe-weave more es (after e n) (after e k) (IsLike-after e n k q) t.rest)
