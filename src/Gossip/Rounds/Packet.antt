-- ===== src/Gossip/Rounds/Packet.antt =====
-- The packet of a round is the one that `encodeDigest` makes.
use piko.Prelude.{
  ℕ, ◌+◌, ◌≡◌, refl, true, List, [], ◌∷◌, ltb, Result, ok, ◌>>=◌, Result-cases, Bool-cases, inl,
  inr, arith,
}
use piko.Gossip.State.{NodeMetadata, DigestEntry}
use piko.Gossip.Protocol.{
  Error, Codec, Buffer, size, commit, encode_value, encode_all, encode_header, encode_digest,
  digest_type,
}
use piko.Gossip.Listener.{Environment}
use piko.Gossip.Rounds.{append_digest, gossip_packet}

append_digest-encode_all :
    {A : Type 0} (c : Codec A) (most : ℕ) (vs : List A) (b : Buffer) (n : ℕ)
    → (append_digest c most vs b n >>= λ r. ok r.0) ≡ encode_all c most vs b
unfolding append_digest encode_all
append_digest-encode_all c most [] b n = refl
append_digest-encode_all c most (v ∷ vs) b n = elim (Result-cases (encode_value c v b)) [
  | inr (e, h) ↦ rw (h, append_digest, encode_all) refl
  | inl (b', h) ↦ elim (Bool-cases (ltb most (size b'))) [
    | inl l ↦ ground (arith, h, l)
    | inr l ↦ ground (arith, append_digest-encode_all c most vs (commit b') (n + 1))
  ]
]

-- The loop that `gossip` has of its own sends byte for byte the packet that `encodeDigest` makes of
-- the shuffled digest, as a request, or fails with the same error.
pub gossip_packet-encode_digest :
    (env : Environment) (m : NodeMetadata) (d : List DigestEntry)
    → (gossip_packet env m d >>= λ r. ok r.0)
      ≡ encode_digest env.codecs
          (record { node_id = m.id; addr = m.addr; request = true })
          (env.shuffle d)
          env.max_packet_size
unfolding gossip_packet encode_digest
gossip_packet-encode_digest env m d =
    let h : Result Error Buffer =
      encode_header env.codecs.digest_header digest_type
        (record { node_id = m.id; addr = m.addr; request = true }) env.max_packet_size in
    elim (Result-cases h) [
      | inr (e, p) ↦ rw p refl
      | inl (b, p) ↦
          rw
            (
              p,
              ← append_digest-encode_all env.codecs.digest_entry env.max_packet_size (env.shuffle d)
                  b 0,
            )
            (elim (Result-cases
              (append_digest env.codecs.digest_entry env.max_packet_size (env.shuffle d) b 0)) [
                | inl (r, q) ↦ rw q refl
                | inr (e, q) ↦ rw q refl
              ])
    ]
