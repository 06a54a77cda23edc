-- ===== src/Client/Listener/Sessions.antt =====
-- client/listener.go and client/forwarder.go: no session is left open.
use piko.Prelude.{
  ℕ, String, ◌≡◌, refl, subst, ◌⊎◌, inl, inr, true, false, Option, none, some, List, [], ◌∷◌, ◌++◌,
  arith,
}
use piko.Client.Upstream.{Outcome, connected, cancelled, failed, trying}
use piko.Client.Listener.{
  new_listener, Effect, opened, closed, forwarded, Effects, Listener, Event, stream, broken, Error,
  Accepted, accepted, stopped, waiting, replace, accept, shutdown, close_old, accept_loop, listen,
  listen_and_forward,
}

abbrev pub Does : Effect → Effects → Type 0
Does x [] = ⊥
Does x (y ∷ ys) = (y ≡ x) ⊎ Does x ys

Does-left : (x : Effect) (fx gx : Effects) → Does x fx → Does x (fx ++ gx)
Does-left x [] gx i = absurd i
Does-left x (y ∷ fx) gx (inl p) = inl p
Does-left x (y ∷ fx) gx (inr i) = inr (Does-left x fx gx i)

Does-right : (x : Effect) (fx gx : Effects) → Does x gx → Does x (fx ++ gx)
Does-right x [] gx i = i
Does-right x (y ∷ fx) gx i = inr (Does-right x fx gx i)

Does-split : (x : Effect) (fx gx : Effects) → Does x (fx ++ gx) → Does x fx ⊎ Does x gx
Does-split x [] gx i = inr i
Does-split x (y ∷ fx) gx (inl p) = inl (inl p)
Does-split x (y ∷ fx) gx (inr i) = elim (Does-split x fx gx i) [
  | inl j ↦ inl (inr j)
  | inr j ↦ inr j
]

-- Sessions at hand: the one that there was, and those opened since.
abbrev pub Had : Option ℕ → Effects → ℕ → Type 0
Had sess fx n = (sess ≡ some n) ⊎ Does (opened n) fx

-- Every session that there was or that was opened is closed, or is the one that there is now.
abbrev pub Kept : Option ℕ → Effects → Option ℕ → Type 0
Kept before fx after = (n : ℕ) → Had before fx n → Does (closed n) fx ⊎ (after ≡ some n)

Kept-then : (a b c : Option ℕ) (fx gx : Effects) → Kept a fx b → Kept b gx c → Kept a (fx ++ gx) c
Kept-then a b c fx gx h k n i = elim (earlier i) [
  | inr late ↦ elim (k n (inr late)) [ inl d ↦ inl (Does-right (closed n) fx gx d) | inr e ↦ inr e ]
  | inl early ↦ elim (h n early) [
    | inl d ↦ inl (Does-left (closed n) fx gx d)
    | inr e ↦ elim (k n (inl e)) [ inl d ↦ inl (Does-right (closed n) fx gx d) | inr f ↦ inr f ]
  ]
]
  where
    earlier : Had a (fx ++ gx) n → Had a fx n ⊎ Does (opened n) gx
    earlier (inl p) = inl (inl p)
    earlier (inr j) = elim (Does-split (opened n) fx gx j) [ inl l ↦ inl (inr l) | inr r ↦ inr r ]

Kept-none : (a : Option ℕ) → Kept a [] a
Kept-none a n (inl p) = inr p
Kept-none a n (inr i) = absurd i

close_old-opens : (sess : Option ℕ) (m : ℕ) → Does (opened m) (close_old sess) → ⊥
unfolding close_old
close_old-opens none m i = i
close_old-opens (some n) m (inl p) = ground arith
close_old-opens (some n) m (inr i) = i

replace-Kept : (l : Listener) (n : ℕ) → Kept l.sess (replace l n).1 (some n)
unfolding replace close_old
replace-Kept l n m (inl p) = inl (inr (rw p (inl refl)))
replace-Kept l n m (inr (inl p)) = inr (ground arith)
replace-Kept l n m (inr (inr i)) = absurd (close_old-opens l.sess m i)

replace-sess : (l : Listener) (n : ℕ) → (replace l n).0.sess ≡ some n
unfolding replace
replace-sess l n = refl

accept-Kept : (l : Listener) (es : List Event) → Kept l.sess (accept l es).2 (accept l es).1.sess
unfolding accept
accept-Kept l [] = Kept-none l.sess
accept-Kept l (stream c ∷ es) = Kept-none l.sess
accept-Kept l (broken true is_shutdown next ∷ es) = Kept-none l.sess
accept-Kept l (broken false true next ∷ es) = Kept-none l.sess
accept-Kept l (broken false false cancelled ∷ es) = Kept-none l.sess
accept-Kept l (broken false false (failed e) ∷ es) = Kept-none l.sess
accept-Kept l (broken false false trying ∷ es) = Kept-none l.sess
accept-Kept l (broken false false (connected s) ∷ es) =
    let m = (replace l s.conn).0 in
    Kept-then l.sess m.sess (accept m es).1.sess (replace l s.conn).1 (accept m es).2
      (rw (replace-sess l s.conn) (replace-Kept l s.conn)) (accept-Kept m es)

-- Every session that there was or that was opened is closed, or the loop runs on with it.
abbrev pub Released : Option ℕ → Option Error × Listener × Effects → Type 0
Released before r =
    (n : ℕ) → Had before r.2 n → Does (closed n) r.2 ⊎ ((r.0 ≡ none) × (r.1.sess ≡ some n))

Kept-Released :
    (a b : Option ℕ) (fx : Effects) (r : Option Error × Listener × Effects)
    → Kept a fx b
    → Released b r
    → Released a (r.0, r.1, fx ++ r.2)
Kept-Released a b fx r h k n i = elim (earlier i) [
  | inr late ↦ later (k n (inr late))
  | inl early ↦ elim (h n early) [
    | inl d ↦ inl (Does-left (closed n) fx r.2 d)
    | inr e ↦ later (k n (inl e))
  ]
]
  where
    earlier : Had a (fx ++ r.2) n → Had a fx n ⊎ Does (opened n) r.2
    earlier (inl p) = inl (inl p)
    earlier (inr j) = elim (Does-split (opened n) fx r.2 j) [ inl l ↦ inl (inr l) | inr l ↦ inr l ]

    later :
        Does (closed n) r.2 ⊎ ((r.0 ≡ none) × (r.1.sess ≡ some n))
        → Does (closed n) (fx ++ r.2) ⊎ ((r.0 ≡ none) × (r.1.sess ≡ some n))
    later (inl d) = inl (Does-right (closed n) fx r.2 d)
    later (inr e) = inr e

shutdown-Released :
    (e : Error) (l : Listener) → Released l.sess (some e, (shutdown l).0, (shutdown l).1)
unfolding shutdown close_old
shutdown-Released e l n (inl p) = inl (rw p (inl refl))
shutdown-Released e l n (inr i) = absurd (close_old-opens l.sess n i)

forwarded-Released :
    (c : ℕ) (a : Option ℕ) (r : Option Error × Listener × Effects)
    → Released a r
    → Released a (r.0, r.1, forwarded c ∷ r.2)
forwarded-Released c a r h n (inl p) = elim (h n (inl p)) [ inl d ↦ inl (inr d) | inr e ↦ inr e ]
forwarded-Released c a r h n (inr (inl q)) = absurd (ground arith)
forwarded-Released c a r h n (inr (inr i)) = elim (h n (inr i)) [
  | inl d ↦ inl (inr d)
  | inr e ↦ inr e
]

Accepted-cases :
    (a : Accepted) → ((c : ℕ) × (a ≡ accepted c)) ⊎ ((e : Error) × (a ≡ stopped e)) ⊎ (a ≡ waiting)
Accepted-cases (accepted c) = inl (c, refl)
Accepted-cases (stopped e) = inr (inl (e, refl))
Accepted-cases waiting = inr (inr refl)

running-Released : (l : Listener) → Released l.sess (none, l, [])
running-Released l n (inl p) = inr (refl, p)
running-Released l n (inr i) = absurd i

Kept-waiting :
    (a : Option ℕ) (fx : Effects) (l : Listener) → Kept a fx l.sess → Released a (none, l, fx)
Kept-waiting a fx l h n i = elim (h n i) [ inl d ↦ inl d | inr e ↦ inr (refl, e) ]

accept_loop-Released :
    (l : Listener) (calls : List (List Event)) → Released l.sess (accept_loop l calls)
unfolding accept_loop
accept_loop-Released l [] = running-Released l
accept_loop-Released l (es ∷ calls) =
    let m = (accept l es).1 in
    let fx = (accept l es).2 in
    let kept = accept-Kept l es in
    let rest = accept_loop-Released m calls in
    elim (Accepted-cases (accept l es).0) [
      | inl (c, p) ↦
          rw (p, accept_loop)
            (Kept-Released l.sess m.sess fx
              (
                (accept_loop m calls).0,
                (accept_loop m calls).1,
                forwarded c ∷ (accept_loop m calls).2,
              )
              kept (forwarded-Released c m.sess (accept_loop m calls) rest))
      | inr (inl (e, p)) ↦
          rw (p, accept_loop)
            (Kept-Released l.sess m.sess fx (some e, (shutdown m).0, (shutdown m).1) kept
              (shutdown-Released e m))
      | inr (inr p) ↦ rw (p, accept_loop) (Kept-waiting l.sess fx m kept)
    ]

some-inj : {A : Type 0} {a b : A} → some a ≡ some b → a ≡ b
some-inj h = cc

-- Of a forwarder that has connected: every session that was opened, by it or by its reconnects, is
-- closed, or the forwarder runs on and it is the session that it has.
pub listen_and_forward-Released :
    (endpoint_id : String) (first : Outcome ℕ) (calls : List (List Event))
    (r : Option Error × Listener × Effects)
    → listen_and_forward endpoint_id first calls ≡ some r
    → (n : ℕ) → Does (opened n) r.2
    → Does (closed n) r.2 ⊎ ((r.0 ≡ none) × (r.1.sess ≡ some n))
unfolding listen_and_forward listen
listen_and_forward-Released endpoint_id cancelled calls r h = absurd (ground arith)
listen_and_forward-Released endpoint_id (failed e) calls r h = absurd (ground arith)
listen_and_forward-Released endpoint_id trying calls r h = absurd (ground arith)
listen_and_forward-Released endpoint_id (connected s) calls r h =
    let l = new_listener endpoint_id in
    let m = replace l s.conn in
    let loop = accept_loop m.0 calls in
    let kept : Kept l.sess m.1 m.0.sess = rw (replace-sess l s.conn) (replace-Kept l s.conn) in
    let done = Kept-Released l.sess m.0.sess m.1 loop kept (accept_loop-Released m.0 calls) in
    let one : some (loop.0, loop.1, m.1 ++ loop.2) ≡ some r = h in
    let all : (loop.0, loop.1, m.1 ++ loop.2) ≡ r = some-inj one in
    λ n i. subst (Released l.sess) all done n (inr i)
