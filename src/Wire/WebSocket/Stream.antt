-- ===== src/Wire/WebSocket/Stream.antt =====
-- pkg/websocket/conn.go: what `Read` returns over a socket that delivers its messages in order.
use mathlib.Core.List.{append_assoc}
use piko.Prelude.{
  ℕ, zero, suc, ◌≤◌, ◌<◌, ◌≡◌, refl, sym, subst, List-cases, ap, ◌∙◌, ◌≢◌, ◌⊎◌, Bool, true, false,
  Option, none, some, List, [], ◌∷◌, ◌++◌, length, inl, inr, ok, arith,
}
use piko.Wire.Yamux.{concat}
use piko.Wire.WebSocket.{Bytes, Failure, eof, Socket, Progress, read, after_read, binary_message}

-- How a WebSocket that is up delivers binary messages: `current` is what is left of the message of
-- the reader, `messages` are those to come.
pub record IsStream {W : Type 0} (s : Socket W) (current : W → Bytes) (messages : W → List Bytes)
    : Type 0 where
  pub next_opens :
      (w : W) (m : Bytes) (ms : List Bytes)
      → messages w ≡ m ∷ ms
      → (v : W) × (s.next_reader w ≡ (ok binary_message, v)) × (current v ≡ m) × (messages v ≡ ms)
  pub read_ends :
      (len : ℕ) (w : W)
      → current w ≡ []
      → (v : W) × (s.read_reader len w ≡ (([], some eof), v)) × (messages v ≡ messages w)
  pub read_part :
      (len : ℕ) (w : W)
      → 0 < len
      → current w ≢ []
      → (b : ℕ) × (bs : Bytes) × (e : Option Failure) × (v : W) × (s.read_reader len w
          ≡ ((b ∷ bs, e), v))
        × ((b ∷ bs) ++ current v ≡ current w)
        × (messages v ≡ messages w)
        × (length (b ∷ bs) ≤ len)
        × ((e ≡ none) ⊎ ((e ≡ some eof) × (current v ≡ [])))

module _ {W : Type 0} (s : Socket W) (current : W → Bytes) (messages : W → List Bytes) where
  -- All that is still to be read.
  unfoldable pub remaining : Bool → W → Bytes
  remaining true w = current w ++ concat (messages w)
  remaining false w = concat (messages w)

  -- The rounds that a call can take.
  unfoldable pub rounds : Bool → W → ℕ
  rounds true w = suc (length (messages w))
  rounds false w = length (messages w)

  -- A call returned some of the remaining bytes, the first of them, and no error.
  unfoldable pub Advances : ℕ → Bytes → Option (Progress W) → Type 0
  unfolding remaining
  Advances len before o =
      (p : Progress W) × (o ≡ some p)
      × (p.error ≡ none)
      × (p.bytes ≢ [])
      × (length p.bytes ≤ len)
      × (p.bytes ++ remaining p.reader p.world ≡ before)

  after_read-Advances :
      (laws : IsStream s current messages) (again : W → Option (Progress W)) (len : ℕ) (w : W)
      → 0 < len
      → current w ≢ []
      → Advances len
          (remaining true w)
          (after_read again (s.read_reader len w).0 (s.read_reader len w).1)
  unfolding Advances after_read
  after_read-Advances laws again len w pos more =
      let (b, bs, e, v, called, cut, same, fits, ends) = laws.read_part len w pos more in
      elim ends [
        | inl goes_on ↦
            rw (called, goes_on)
              (
                record { reader = true; world = v; bytes = b ∷ bs; error = none },
                refl,
                refl,
                λ nil. cc,
                fits,
                ap (λ x. (b ∷ bs) ++ (current v ++ concat x)) same
                    ∙ sym (append_assoc (b ∷ bs) (current v) (concat (messages w)))
                    ∙ ap (λ x. x ++ concat (messages w)) cut,
              )
        | inr (at_end, empty) ↦
            rw (called, at_end)
              (
                record { reader = false; world = v; bytes = b ∷ bs; error = none },
                refl,
                refl,
                λ nil. cc,
                fits,
                ap (λ x. (b ∷ bs) ++ (x ++ concat (messages v))) (sym empty)
                    ∙ ap (λ x. (b ∷ bs) ++ (current v ++ concat x)) same
                    ∙ sym (append_assoc (b ∷ bs) (current v) (concat (messages w)))
                    ∙ ap (λ x. x ++ concat (messages w)) cut,
              )
      ]

  -- A reader at its end: the next round goes on with the messages that follow.
  next_round :
      (again : W → Option (Progress W)) (len : ℕ) (w v : W) (before : Bytes)
      → s.read_reader len w ≡ (([], some eof), v)
      → concat (messages v) ≡ before
      → Advances len (concat (messages v)) (again v)
      → Advances len before (after_read again (s.read_reader len w).0 (s.read_reader len w).1)
  unfolding after_read
  next_round again len w v before called e rest =
      rw called (subst (λ x. Advances len x (again v)) e rest)

  -- A round with a reader, where the rounds after it go on with the messages that follow.
  round-Advances :
      (laws : IsStream s current messages) (again : W → Option (Progress W)) (len : ℕ) (w : W)
      → 0 < len
      → ((v : W)
          → messages v ≡ messages w
          → concat (messages v) ≢ []
          → Advances len (concat (messages v)) (again v))
      → current w ++ concat (messages w) ≢ []
      → Advances len
          (current w ++ concat (messages w))
          (after_read again (s.read_reader len w).0 (s.read_reader len w).1)
  unfolding remaining
  round-Advances laws again len w pos rest more = elim (List-cases (current w)) [
    | inl empty ↦
        let (v, called, same) = laws.read_ends len w empty in
        let e : concat (messages v) ≡ current w ++ concat (messages w) =
          ap concat same ∙ ap (λ x. x ++ concat (messages w)) (sym empty) in
        next_round again len w v (current w ++ concat (messages w)) called e
          (rest v same (λ z. more (sym e ∙ z)))
    | inr (c, cs, e) ↦ after_read-Advances laws again len w pos (λ z. cc)
  ]

  -- Over a socket that delivers its messages, into a buffer that is not empty, with bytes still to
  -- be read: `Read` returns within one round more than there are messages, without an error, and
  -- with the next of those bytes, at least one and at most as many as the buffer holds.
  pub read-Advances :
      (laws : IsStream s current messages) (f len : ℕ) (reader : Bool) (w : W)
      → 0 < len
      → rounds reader w < f
      → remaining reader w ≢ []
      → Advances len (remaining reader w) (read s f len reader w)
  unfolding read rounds remaining concat
  read-Advances laws zero len reader w pos fuel more = absurd (omega arith)
  read-Advances laws (suc f) len true w pos fuel more =
      round-Advances laws (read s f len false) len w pos
        (λ v same. read-Advances laws f len false v pos (omega (arith, ap length same))) more
  read-Advances laws (suc f) len false w pos fuel more = elim (List-cases (messages w)) [
    | inl none_left ↦ absurd (more (ap concat none_left))
    | inr (m, ms, to_come) ↦
        let (u, opened, now, later) = laws.next_opens w m ms to_come in
        let e : current u ++ concat (messages u) ≡ concat (messages w) =
          ap (λ x. x ++ concat (messages u)) now
          ∙ ap (λ x. m ++ concat x) later
          ∙ sym (ap concat to_come) in
        let r = s.read_reader len u in
        rw (opened, read, opened)
          (subst (λ x. Advances len x (after_read (read s f len false) r.0 r.1)) e
            (round-Advances laws (read s f len false) len u pos
              (λ v same.
                read-Advances laws f len false v pos
                  (omega (arith, ap length same, ap length later, ap length to_come)))
              (λ z. more (sym e ∙ z))))
  ]
