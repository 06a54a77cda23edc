-- ===== src/Gossip/Protocol/Total.antt =====
-- Decoding ends on every input: a fuel above the number of bytes is enough.
use piko.Prelude.{
  ℕ, zero, suc, ◌≤◌, ◌<◌, ◌≡◌, refl, ◌≢◌, ◌⊎◌, inl, inr, List, [], ◌∷◌, length, Result, ok, err,
  ◌>>=◌, Bool-cases, Result-cases, arith,
}
use piko.Prelude.Int.{ℤ, is_zero, dec_int}
use piko.Gossip.State.{Entry}
use piko.Gossip.Protocol.{
  Bytes, Error, stuck, Codec, Codecs, Decoded, value, eof, failed, read_type, decode_value,
  decode_all, decode_digest, decode_entries, decode_deltas, decode_delta,
}

-- A decoder takes a byte at least.
abbrev pub Consumes : {A : Type 0} → Codec A → Type 0
Consumes {A} c =
    (b : Bytes) (v : A) (rest : Bytes) → c.decode b ≡ value v rest → length rest < length b

pub Decoded-cases :
    {A : Type 0} (d : Decoded A)
    → ((v : A) × (rest : Bytes) × (d ≡ value v rest)) ⊎ ((d ≡ eof) ⊎ (d ≡ failed))
Decoded-cases (value v rest) = inl (v, rest, refl)
Decoded-cases eof = inr (inl refl)
Decoded-cases failed = inr (inr refl)

-- The result is not `stuck`.
abbrev Ends : {A : Type 0} → Result Error A → Type 0
Ends r = r ≢ err stuck

>>=-Ends :
    {A B : Type 0} (m : Result Error A) (f : A → Result Error B)
    → Ends m
    → ((a : A) → m ≡ ok a → Ends (f a))
    → Ends (m >>= f)
>>=-Ends (ok a) f h k = k a refl
>>=-Ends (err e) f h k = λ p. h (ground arith)

ok-Ends : {A : Type 0} (a : A) → Ends (ok a)
ok-Ends a p = cc

decode_value-Ends : {A : Type 0} (c : Codec A) (b : Bytes) → Ends (decode_value c b)
unfolding decode_value
decode_value-Ends c b p = ground arith

read_type-Ends : (t : ℕ) (b : Bytes) → Ends (read_type t b)
unfolding read_type
read_type-Ends t [] p = cc
read_type-Ends t (x ∷ []) p = ground arith
read_type-Ends t (x ∷ v ∷ rest) p = ground arith

decode_all-Ends :
    {A : Type 0} (c : Codec A)
    → Consumes c
    → (f : ℕ) (b : Bytes) → length b < f
    → Ends (decode_all c f b)
unfolding decode_all
decode_all-Ends c k zero b l = absurd (omega arith)
decode_all-Ends c k (suc f) b l = elim (Decoded-cases (c.decode b)) [
  | inl (v, rest, e) ↦
      rw (e, decode_all)
        (>>=-Ends (decode_all c f rest) _ (decode_all-Ends c k f rest (omega (arith, k b v rest e)))
          (λ vs g. ok-Ends (v ∷ vs)))
  | inr (inl e) ↦ rw (e, decode_all) (λ p. cc)
  | inr (inr e) ↦ rw (e, decode_all) (λ p. cc)
]

decode_entries-Ends :
    (c : Codec Entry)
    → Consumes c
    → (f : ℕ) (n : ℤ) (b : Bytes) → length b < f
    → Ends (decode_entries c f n b)
unfolding decode_entries
decode_entries-Ends c k zero n b l = absurd (omega arith)
decode_entries-Ends c k (suc f) n b l = elim (Bool-cases (is_zero n)) [
  | inl z ↦ rw (z, decode_entries) (λ p. cc)
  | inr z ↦ elim (Decoded-cases (c.decode b)) [
    | inl (v, rest, e) ↦
        rw (z, e, decode_entries)
          (>>=-Ends (decode_entries c f (dec_int n) rest) _
            (decode_entries-Ends c k f (dec_int n) rest (omega (arith, k b v rest e)))
            (λ r g. ok-Ends (v ∷ r.0, r.1)))
    | inr (inl e) ↦ rw (z, e, decode_entries) (λ p. cc)
    | inr (inr e) ↦ rw (z, e, decode_entries) (λ p. cc)
  ]
]

-- Entries are taken off the input.
decode_entries-le :
    (c : Codec Entry)
    → Consumes c
    → (f : ℕ) (n : ℤ) (b : Bytes) (r : List Entry × Bytes) → decode_entries c f n b ≡ ok r
    → length r.1 ≤ length b
unfolding decode_entries
decode_entries-le c k zero n b r h = cc
decode_entries-le c k (suc f) n b r h = elim (Bool-cases (is_zero n)) [
  | inl z ↦ ground arith
  | inr z ↦ elim (Decoded-cases (c.decode b)) [
    | inl (v, rest, e) ↦ elim (Result-cases (decode_entries c f (dec_int n) rest)) [
      | inl (q, g) ↦ ground (arith, k b v rest e, decode_entries-le c k f (dec_int n) rest q g)
      | inr (x, g) ↦ absurd (ground arith)
    ]
    | inr (inl e) ↦ ground arith
    | inr (inr e) ↦ absurd (ground arith)
  ]
]

module _ (c : Codecs) (header : Consumes c.delta_header) (entry : Consumes c.entry) where
  decode_deltas-Ends : (f : ℕ) (b : Bytes) → length b < f → Ends (decode_deltas c f b)
  unfolding decode_deltas
  decode_deltas-Ends zero b l = absurd (omega arith)
  decode_deltas-Ends (suc f) b l = elim (Decoded-cases (c.delta_header.decode b)) [
    | inl (h, rest, e) ↦
        let short : length rest < f = omega (arith, header b h rest e) in
        rw (e, decode_deltas)
          (>>=-Ends (decode_entries c.entry f h.entries rest) _
            (decode_entries-Ends c.entry entry f h.entries rest short)
            (λ r g.
              let less : length r.1 < f =
                omega (arith, decode_entries-le c.entry entry f h.entries rest r g) in
              >>=-Ends (decode_deltas c f r.1) _ (decode_deltas-Ends f r.1 less)
                (λ ds q. ok-Ends _)))
    | inr (inl e) ↦ rw (e, decode_deltas) (λ p. cc)
    | inr (inr e) ↦ rw (e, decode_deltas) (λ p. cc)
  ]

length-read_type : (t : ℕ) (b rest : Bytes) → read_type t b ≡ ok rest → length rest < length b
unfolding read_type
length-read_type t [] rest h = cc
length-read_type t (x ∷ []) rest h = absurd (ground arith)
length-read_type t (x ∷ v ∷ r) rest h = ground arith

length-decode_value :
    {A : Type 0} (c : Codec A)
    → Consumes c
    → (b : Bytes) (r : A × Bytes) → decode_value c b ≡ ok r
    → length r.1 < length b
unfolding decode_value
length-decode_value c k b r h = elim (Decoded-cases (c.decode b)) [
  | inl (v, rest, e) ↦ ground (arith, k b v rest e)
  | inr (inl e) ↦ absurd (ground arith)
  | inr (inr e) ↦ absurd (ground arith)
]

-- Whatever bytes a packet holds, decoding it as a digest or as a delta ends, within as many rounds
-- as there are bytes; where each decoder of the codec takes a byte at least.
pub decode-Ends :
    (c : Codecs) (b : Bytes)
    → Consumes c.digest_header
    → Consumes c.digest_entry
    → Consumes c.delta_header
    → Consumes c.entry
    → Ends (decode_digest c (length b) b) × Ends (decode_delta c (length b) b)
unfolding decode_digest decode_delta
decode-Ends c b dh de h e = (
  >>=-Ends (read_type _ b) _ (read_type-Ends _ b) (λ rest p.
      >>=-Ends (decode_value c.digest_header rest) _ (decode_value-Ends c.digest_header rest)
        (λ r q.
          >>=-Ends (decode_all c.digest_entry (length b) r.1) _
            (decode_all-Ends c.digest_entry de (length b) r.1 (
              omega (
                arith,
                length-read_type _ b rest p,
                length-decode_value c.digest_header dh rest r q,
              )))
            (λ ds g. ok-Ends _))),
  >>=-Ends (read_type _ b) _ (read_type-Ends _ b) (λ rest p.
      >>=-Ends (decode_value c.delta_header rest) _ (decode_value-Ends c.delta_header rest) (λ r q.
        >>=-Ends (decode_deltas c (length b) r.1) _
          (decode_deltas-Ends c h e (length b) r.1 (
            omega
              (arith, length-read_type _ b rest p, length-decode_value c.delta_header h rest r q)))
          (λ ds g. ok-Ends _))),
)
