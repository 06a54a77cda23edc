-- ===== src/Gossip/Protocol/Cut.antt =====
-- What a packet that was cut off at the packet size is read back as.
use mathlib.Core.List.{append-nil, append_assoc}
use piko.Prelude.{
  ℕ, zero, suc, ◌<◌, ◌≡◌, refl, sym, ap, ◌∙◌, ◌⊎◌, inl, inr, some, List, [], ◌∷◌, ◌++◌, length,
  length-append, ltb, ok, >>=-eq-ok, Bool-cases, Option-cases, arith,
}
use piko.Gossip.State.{Entry, DeltaEntry}
use piko.Gossip.Protocol.{
  Bytes, Codec, Buffer, value, eof, size, write, commit, encode_value, encode_all, decode_all,
}
use piko.Gossip.Protocol.Total.{Consumes}

-- What the program relies on: a value is read back as it was written, whatever follows it; the end of
-- the input is told as such; and a value takes a byte at least.
pub record Faithful {A : Type 0} (c : Codec A) : Type 0 where
  pub reads : (v : A) (x rest : Bytes) → c.encode v ≡ some x → c.decode (x ++ rest) ≡ value v rest
  pub ends : c.decode [] ≡ eof
  pub consumes : Consumes c

-- The delta up to some entry: whole deltas of nodes, and then at most one with its first entries.
pub data IsCut : List DeltaEntry → List DeltaEntry → Type 0 where
  nothing : (ds : List DeltaEntry) → IsCut ds []
  part :
      (d : DeltaEntry) (es rest : List Entry) (ds : List DeltaEntry)
      → d.entries ≡ es ++ rest
      → IsCut (d ∷ ds) (record d { entries = es } ∷ [])
  whole : (d : DeltaEntry) (ds cs : List DeltaEntry) → IsCut ds cs → IsCut (d ∷ ds) (d ∷ cs)

-- These bytes are the encodings of these values.
abbrev pub Encodes : {A : Type 0} → Codec A → List A → Bytes → Type 0
Encodes c [] x = x ≡ []
Encodes c (v ∷ vs) x =
    (y : Bytes) × (z : Bytes) × (c.encode v ≡ some y) × (x ≡ y ++ z) × Encodes c vs z

-- What a loop over entries has put into the buffer.
pub record Sent {A : Type 0} (c : Codec A) (most : ℕ) (vs : List A) (b b' : Buffer) : Type 0 where
  pub taken : List A
  pub left : List A
  pub bytes : Bytes
  pub split : vs ≡ taken ++ left
  pub sent : b'.sent ≡ b.sent ++ bytes
  pub encodes : Encodes c taken bytes
  pub over : ((left ≡ []) × (b'.excess ≡ [])) ⊎ (most < size b')

pub encode_value-write :
    {A : Type 0} (c : Codec A) (v : A) (b b' : Buffer)
    → encode_value c v b ≡ ok b'
    → (y : Bytes) × (c.encode v ≡ some y) × (b' ≡ write y b)
unfolding encode_value
encode_value-write c v b b' h = elim (Option-cases (c.encode v)) [
  | inl e ↦ absurd (ground arith)
  | inr (y, e) ↦ (y, e, ground arith)
]

-- The bytes of a buffer with nothing behind them, after one more value.
pub commit-write :
    (y : Bytes) (b : Buffer) → b.excess ≡ [] → (commit (write y b)).sent ≡ b.sent ++ y
unfolding commit write
commit-write y b e = rw e refl

pub encode_all-Sent :
    {A : Type 0} (c : Codec A) (most : ℕ) (vs : List A) (b b' : Buffer)
    → b.excess ≡ []
    → encode_all c most vs b ≡ ok b'
    → Sent c most vs b b'
unfolding encode_all
encode_all-Sent c most [] b b' n h =
    let e : b ≡ b' = ground arith in
    rw (← e) (record {
      taken = [];
      left = [];
      bytes = [];
      split = refl;
      sent = sym (append-nil b.sent);
      encodes = refl;
      over = inl (refl, n);
    })
encode_all-Sent c most (v ∷ vs) b b' n h =
    let (m, e, g) = >>=-eq-ok (encode_value c v b) _ h in
    let (y, w, q) = encode_value-write c v b m e in
    elim (Bool-cases (ltb most (size m))) [
      | inl l ↦
          let p : m ≡ b' = ground arith in
          rw (← p) (record {
            taken = [];
            left = v ∷ vs;
            bytes = [];
            split = refl;
            sent = rw q (unfold write in sym (append-nil b.sent));
            encodes = refl;
            over = inr (ground arith);
          })
      | inr l ↦
          let s = encode_all-Sent c most vs (commit m) b' (unfold commit in refl) (rw l at g) in
          record {
            taken = v ∷ s.taken;
            left = s.left;
            bytes = y ++ s.bytes;
            split = ap (λ t. v ∷ t) s.split;
            sent =
                s.sent
                ∙ ap (λ t. (commit t).sent ++ s.bytes) q
                ∙ ap (λ t. t ++ s.bytes) (commit-write y b n)
                ∙ append_assoc b.sent y s.bytes;
            encodes = (y, s.bytes, w, refl, s.encodes);
            over = s.over;
          }
    ]

-- A value that was written takes a byte at least.
pub length-encode :
    {A : Type 0} (c : Codec A)
    → Faithful c
    → (v : A) (y : Bytes) → c.encode v ≡ some y
    → 0 < length y
length-encode c f v y e =
    ground (arith, f.reads v y [] e, f.consumes (y ++ []) v [], length-append {0} y [])

module _ {A : Type 0} (c : Codec A) (ok_codec : Faithful c) where
  pub decode_all-Encodes :
      (us : List A) (x : Bytes) (f : ℕ) → Encodes c us x → length x < f → decode_all c f x ≡ ok us
  unfolding decode_all
  decode_all-Encodes us x zero h l = absurd (omega arith)
  decode_all-Encodes [] x (suc f) h l = rw (h, decode_all, ok_codec.ends) refl
  decode_all-Encodes (u ∷ us) x (suc f) (y, z, e, p, h) l =
      let shorter : length z < f =
        omega (arith, ap length p, length-append {0} y z, length-encode c ok_codec u y e) in
      rw (p, decode_all, ok_codec.reads u y z e, decode_all-Encodes us z f h shorter) refl
