-- ===== src/Gossip/Protocol/Bounds.antt =====
-- No packet is longer than the packet size.
use piko.Prelude.{
  ℕ, ◌≤◌, ◌≡◌, false, List, [], ◌∷◌, length, length-append, ltb, if◌then◌else◌, ok, err, >>=-eq-ok,
  Bool-cases, inl, inr, arith,
}
use piko.Gossip.State.{DigestEntry, DeltaEntry}
use piko.Gossip.Protocol.{
  Bytes, DigestHeader, DeltaHeader, header_too_large, supported_version, Codec, Codecs, Buffer,
  size, commit, encode_value, encode_all, encode_header, encode_digest, entry_header, encode_deltas,
  encode_delta,
}

-- The bytes to send fit.
abbrev Fits : ℕ → Buffer → Type 0
Fits most b = length b.sent ≤ most

sent-encode_value :
    {A : Type 0} (c : Codec A) (v : A) (b b' : Buffer)
    → encode_value c v b ≡ ok b'
    → b'.sent ≡ b.sent
unfolding encode_value
sent-encode_value c v b b' h = ground arith

commit-Fits : (most : ℕ) (b : Buffer) → ltb most (size b) ≡ false → Fits most (commit b)
unfolding commit size
commit-Fits most b h = ground (arith, length-append {0} b.sent b.excess)

encode_header-Fits :
    {A : Type 0} (c : Codec A) (t : ℕ) (header : A) (most : ℕ) (b : Buffer)
    → encode_header c t header most ≡ ok b
    → Fits most b
unfolding encode_header
encode_header-Fits c t header most b h =
    let front : Buffer = record { sent = []; excess = t ∷ supported_version ∷ [] } in
    let (b', e, g) =
      >>=-eq-ok (encode_value c header front)
        (λ m. if ltb most (size m) then err (header_too_large most (size m)) else ok (commit m))
        h in
    elim (Bool-cases (ltb most (size b'))) [
      | inl l ↦ absurd (ground arith)
      | inr l ↦ ground (arith, commit-Fits most b' l)
    ]

encode_all-Fits :
    {A : Type 0} (c : Codec A) (most : ℕ) (vs : List A) (b b' : Buffer)
    → Fits most b
    → encode_all c most vs b ≡ ok b'
    → Fits most b'
unfolding encode_all
encode_all-Fits c most [] b b' f h = ground arith
encode_all-Fits c most (v ∷ vs) b b' f h =
    let (m, e, g) = >>=-eq-ok (encode_value c v b) _ h in
    elim (Bool-cases (ltb most (size m))) [
      | inl l ↦ ground (arith, sent-encode_value c v b m e)
      | inr l ↦ encode_all-Fits c most vs (commit m) b' (commit-Fits most m l) (rw l at g)
    ]

encode_deltas-Fits :
    (c : Codecs) (most : ℕ) (ds : List DeltaEntry) (b b' : Buffer)
    → Fits most b
    → encode_deltas c most ds b ≡ ok b'
    → Fits most b'
unfolding encode_deltas
encode_deltas-Fits c most [] b b' f h = ground arith
encode_deltas-Fits c most (d ∷ ds) b b' f h =
    let (m, e, g) = >>=-eq-ok (encode_value c.delta_header (entry_header d) b) _ h in
    elim (Bool-cases (ltb most (size m))) [
      | inl l ↦ ground (arith, sent-encode_value c.delta_header (entry_header d) b m e)
      | inr l ↦
          let (k, e', g') =
            >>=-eq-ok (encode_all c.entry most d.entries (commit m)) _ (rw l at g) in
          encode_deltas-Fits c most ds k b'
            (encode_all-Fits c.entry most d.entries (commit m) k (commit-Fits most m l) e') g'
    ]

-- The packet of a digest, with its header, is at most as long as the packet size.
encode_digest-le :
    (c : Codecs) (header : DigestHeader) (digest : List DigestEntry) (most : ℕ) (x : Bytes)
    → encode_digest c header digest most ≡ ok x
    → length x ≤ most
unfolding encode_digest
encode_digest-le c header digest most x h =
    let (b, e, g) = >>=-eq-ok (encode_header c.digest_header _ header most) _ h in
    let (b', e', g') = >>=-eq-ok (encode_all c.digest_entry most digest b) _ g in
    ground (
      arith,
      encode_all-Fits c.digest_entry most digest b b'
          (encode_header-Fits c.digest_header _ header most b e) e',
    )

-- The packet of a delta, with its header, is at most as long as the packet size.
pub encode_delta-le :
    (c : Codecs) (header : DeltaHeader) (delta : List DeltaEntry) (most : ℕ) (x : Bytes)
    → encode_delta c header delta most ≡ ok x
    → length x ≤ most
unfolding encode_delta
encode_delta-le c header delta most x h =
    let (b, e, g) = >>=-eq-ok (encode_header c.delta_header _ header most) _ h in
    let (b', e', g') = >>=-eq-ok (encode_deltas c most delta b) _ g in
    ground (
      arith,
      encode_deltas-Fits c most delta b b' (encode_header-Fits c.delta_header _ header most b e) e',
    )
