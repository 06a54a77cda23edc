-- ===== src/Gossip/Protocol/Packets.antt =====
-- A packet, with its header, is read back as what fitted into it.
use piko.Prelude.{
  ℕ, ◌<◌, ◌≡◌, refl, ap, ◌∙◌, inl, inr, some, List, [], ◌∷◌, ◌++◌, length, length-append, ltb,
  if◌then◌else◌, ok, err, >>=-eq-ok, Bool-cases, arith,
}
use piko.Gossip.State.{DigestEntry, DeltaEntry}
use piko.Gossip.Protocol.{
  value, Bytes, DigestHeader, DeltaHeader, Codec, Codecs, Buffer, size, write, commit, encode_value,
  encode_all, encode_header, encode_digest, encode_deltas, encode_delta, read_type, decode_value,
  decode_all, decode_digest, decode_deltas, decode_delta, header_too_large, supported_version,
}
use piko.Gossip.Protocol.Cut.{
  Faithful, IsCut, encode_value-write, encode_all-Sent, decode_all-Encodes,
}
use piko.Gossip.Protocol.RoundTrip.{encode_deltas-Read}

-- The bytes of a header, behind the type and the version.
encode_header-bytes :
    {A : Type 0} (c : Codec A) (t : ℕ) (header : A) (most : ℕ) (b : Buffer)
    → encode_header c t header most ≡ ok b
    → (y : Bytes) × (c.encode header ≡ some y)
      × (b.sent ≡ t ∷ supported_version ∷ y)
      × (b.excess ≡ [])
unfolding encode_header
encode_header-bytes c t header most b h =
    let front : Buffer = record { sent = []; excess = t ∷ supported_version ∷ [] } in
    let (m, e, g) =
      >>=-eq-ok (encode_value c header front)
        (λ m. if ltb most (size m) then err (header_too_large most (size m)) else ok (commit m))
        h in
    let (y, w, q) = encode_value-write c header front m e in
    elim (Bool-cases (ltb most (size m))) [
      | inl l ↦ absurd (ground arith)
      | inr l ↦
          let p : b ≡ commit m = ground arith in
          (y, w, rw (p, q) (unfold commit write in refl), rw p (unfold commit in refl))
    ]

module _ (c : Codecs) (fuel : ℕ) (y z : Bytes) where
  digest_packet :
      (header : DigestHeader) (us : List DigestEntry)
      → c.digest_header.decode (y ++ z) ≡ value header z
      → decode_all c.digest_entry fuel z ≡ ok us
      → decode_digest c fuel (1 ∷ 0 ∷ (y ++ z)) ≡ ok (header, us)
  unfolding decode_digest read_type decode_value
  digest_packet header us h g = ground arith

  delta_packet :
      (header : DeltaHeader) (ds : List DeltaEntry)
      → c.delta_header.decode (y ++ z) ≡ value header z
      → decode_deltas c fuel z ≡ ok ds
      → decode_delta c fuel (2 ∷ 0 ∷ (y ++ z)) ≡ ok (header, ds)
  unfolding decode_delta read_type decode_value
  delta_packet header ds h g = ground arith

-- The packet of a digest is read back, within as many rounds as it has bytes, as the header and the
-- first entries of the digest; where the codec reads values back as it writes them.
pub decode-encode_digest :
    (c : Codecs) (header : DigestHeader) (digest : List DigestEntry) (most : ℕ) (x : Bytes)
    → Faithful c.digest_header
    → Faithful c.digest_entry
    → encode_digest c header digest most ≡ ok x
    → (us : List DigestEntry) × (left : List DigestEntry) × (digest ≡ us ++ left)
      × (decode_digest c (length x) x ≡ ok (header, us))
unfolding encode_digest
decode-encode_digest c header digest most x fh fe h =
    let (b, e, g) = >>=-eq-ok (encode_header c.digest_header _ header most) _ h in
    let (b', e', g') = >>=-eq-ok (encode_all c.digest_entry most digest b) _ g in
    let (y, w, front, clean) = encode_header-bytes c.digest_header _ header most b e in
    let s = encode_all-Sent c.digest_entry most digest b b' clean e' in
    let whole_x : x ≡ 1 ∷ 0 ∷ (y ++ s.bytes) =
      (let p : x ≡ b'.sent = ground arith in p) ∙ s.sent ∙ ap (λ t. t ++ s.bytes) front in
    let fuel : length s.bytes < length x =
      omega (arith, ap length whole_x, length-append {0} y s.bytes) in
    (
      s.taken,
      s.left,
      s.split,
      ap (λ t. decode_digest c (length x) t) whole_x
          ∙ digest_packet c (length x) y s.bytes header s.taken (fh.reads header y s.bytes w)
              (decode_all-Encodes c.digest_entry fe s.taken s.bytes (length x) s.encodes fuel),
    )

-- The packet of a delta is read back, within as many rounds as it has bytes, as the header and the
-- delta up to some entry; where the codec reads values back as it writes them.
pub decode-encode_delta :
    (c : Codecs) (header : DeltaHeader) (delta : List DeltaEntry) (most : ℕ) (x : Bytes)
    → Faithful c.delta_header
    → Faithful c.entry
    → encode_delta c header delta most ≡ ok x
    → (cut : List DeltaEntry) × IsCut delta cut × (decode_delta c (length x) x ≡ ok (header, cut))
unfolding encode_delta
decode-encode_delta c header delta most x fh fe h =
    let (b, e, g) = >>=-eq-ok (encode_header c.delta_header _ header most) _ h in
    let (b', e', g') = >>=-eq-ok (encode_deltas c most delta b) _ g in
    let (y, w, front, clean) = encode_header-bytes c.delta_header _ header most b e in
    let s = encode_deltas-Read c fh fe most delta b b' clean e' in
    let whole_x : x ≡ 2 ∷ 0 ∷ (y ++ s.bytes) =
      (let p : x ≡ b'.sent = ground arith in p) ∙ s.sent ∙ ap (λ t. t ++ s.bytes) front in
    let fuel : length s.bytes < length x =
      omega (arith, ap length whole_x, length-append {0} y s.bytes) in
    (
      s.cut,
      s.is_cut,
      ap (λ t. decode_delta c (length x) t) whole_x
          ∙ delta_packet c (length x) y s.bytes header s.cut (fh.reads header y s.bytes w)
              (s.reads (length x) fuel),
    )
