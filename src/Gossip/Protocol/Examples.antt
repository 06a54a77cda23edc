-- ===== src/Gossip/Protocol/Examples.antt =====
-- A codec over a table of values, each of which is written as one byte: its place in the table. It
-- shows that what the theorems ask of a codec can hold.
use mathlib.Core.Option
use piko.Prelude.{
  ℕ,
  zero,
  suc,
  ◌≤◌,
  ◌≢◌,
  inl,
  inr,
  ◌≡◌,
  refl,
  ap,
  true,
  false,
  Option,
  none,
  some,
  List,
  [],
  ◌∷◌,
  length,
  get_elem?,
  same,
  arith,
  ok,
  err,
  Option-cases,
  ite,
  Int.{ℤ, pos, negsuc},
}
use native.Mathlib.Decide.{ℕ_discrete}
use mathlib.Core.Bool.{Bool-discrete}
use piko.Gossip.State.{Entry, DigestEntry, DeltaEntry}
use piko.Gossip.Protocol.{
  Bytes, Codec, Codecs, Decoded, value, eof, failed, stuck, DigestHeader, DeltaHeader, encode_delta,
  decode_digest, decode_delta,
}
use piko.Gossip.Protocol.Total.{Consumes, decode-Ends}
use piko.Gossip.Protocol.Cut.{Faithful, IsCut}
use piko.Gossip.Protocol.Packets.{decode-encode_delta}
use piko.Gossip.Protocol.Bounds.{encode_delta-le}

unfoldable pub both : {A B : Type 0} → Dec A → Dec B → Dec (A × B)
both (yes a) (yes b) = yes (a, b)
both (no n) d = no (λ p. n p.0)
both (yes a) (no n) = no (λ p. n p.1)

unfoldable pub via : {A B : Type 0} → (A → B) → (B → A) → Dec A → Dec B
via f g (yes a) = yes (f a)
via f g (no n) = no (λ b. n (g b))

unfoldable pub pos_or_negsuc : (a b : ℤ) → Dec (a ≡ b)
unfolding via
pos_or_negsuc (pos m) (pos n) = via (ap pos) (λ e. ground arith) (ℕ_discrete m n)
pos_or_negsuc (negsuc m) (negsuc n) = via (ap negsuc) (λ e. ground arith) (ℕ_discrete m n)
pos_or_negsuc (pos m) (negsuc n) = no (λ e. cc)
pos_or_negsuc (negsuc m) (pos n) = no (λ e. cc)

unfoldable pub dec_digest_header : (a b : DigestHeader) → Dec (a ≡ b)
unfolding via both
dec_digest_header a b =
    via (λ p. cc) (λ e. (ap (λ x. x.node_id) e, (ap (λ x. x.addr) e, ap (λ x. x.request) e)))
      (both (same a.node_id b.node_id)
        (both (same a.addr b.addr) (Bool-discrete a.request b.request)))

unfoldable pub dec_delta_header : (a b : DeltaHeader) → Dec (a ≡ b)
unfolding via both pos_or_negsuc
dec_delta_header a b =
    via (λ p. cc) (λ e. (ap (λ x. x.node_id) e, (ap (λ x. x.addr) e, ap (λ x. x.entries) e)))
      (both (same a.node_id b.node_id)
        (both (same a.addr b.addr) (pos_or_negsuc a.entries b.entries)))

unfoldable pub dec_digest_entry : (a b : DigestEntry) → Dec (a ≡ b)
unfolding via both
dec_digest_entry a b =
    via (λ p. cc)
      (λ e. (ap (λ x. x.id) e, (ap (λ x. x.addr) e, (ap (λ x. x.version) e, ap (λ x. x.left) e))))
      (both (same a.id b.id) (
        both (same a.addr b.addr)
          (both (ℕ_discrete a.version b.version) (Bool-discrete a.left b.left))))

unfoldable pub dec_entry : (a b : Entry) → Dec (a ≡ b)
unfolding via both
dec_entry a b =
    via (λ p. cc)
      (λ e. (
        ap (λ x. x.key) e,
        (
          ap (λ x. x.value) e,
          (ap (λ x. x.version) e, (ap (λ x. x.internal) e, ap (λ x. x.deleted) e)),
        ),
      ))
      (both (same a.key b.key) (
        both (same a.value b.value) (
          both (ℕ_discrete a.version b.version)
            (both (Bool-discrete a.internal b.internal) (Bool-discrete a.deleted b.deleted)))))

module _ {A : Type 0} (dec : (a b : A) → Dec (a ≡ b)) where
  unfoldable pub index : List A → A → Option ℕ
  index [] v = none
  index (a ∷ more) v = ite (dec a v) (some 0) (Option.map suc (index more v))

  abbrev pub read_at : List A → Bytes → Decoded A
  read_at table [] = eof
  read_at table (i ∷ rest) = elim (get_elem? table i) [ none ↦ failed | some v ↦ value v rest ]

  unfoldable pub table_codec : List A → Codec A
  unfolding index
  table_codec table = record {
    encode = λ v. Option.map (λ i. i ∷ []) (index table v);
    decode = read_at table;
  }

  get-index : (table : List A) (v : A) (i : ℕ) → index table v ≡ some i → get_elem? table i ≡ some v
  unfolding index
  get-index [] v i h = cc
  get-index (a ∷ more) v zero h = elim (dec a v) [
    | yes e ↦ ap some e
    | no n ↦ elim (Option-cases (index more v)) [
      | inl missing ↦ absurd (ground arith)
      | inr (j, found) ↦ absurd (ground arith)
    ]
  ]
  get-index (a ∷ more) v (suc i) h = elim (dec a v) [
    | yes e ↦ absurd (ground arith)
    | no n ↦ elim (Option-cases (index more v)) [
      | inl missing ↦ absurd (ground arith)
      | inr (j, found) ↦ get-index more v i (ground arith)
    ]
  ]

  read_at-Consumes : (table : List A) → Consumes (table_codec table)
  unfolding table_codec
  read_at-Consumes table [] v rest h = cc
  read_at-Consumes table (i ∷ b) v rest h = elim (Option-cases (get_elem? table i)) [
    | inl missing ↦ absurd (ground arith)
    | inr (w, found) ↦ ground arith
  ]

  pub table_codec-Faithful : (table : List A) → Faithful (table_codec table)
  unfolding table_codec
  table_codec-Faithful table = record {
    reads = λ v x rest h. elim (Option-cases (index table v)) [
      | inl missing ↦ absurd (ground arith)
      | inr (i, found) ↦
          let byte : i ∷ [] ≡ x = ground arith in
          rw (← byte, read_at, get-index table v i found) refl
    ];
    ends = refl;
    consumes = read_at-Consumes table;
  }

abbrev pub no_codec : {A : Type 0} → Codec A
no_codec = record { encode = λ v. none; decode = λ b. failed }

abbrev digest_header : DigestHeader
digest_header = record { node_id = "a"; addr = "10.0.0.1:8003"; request = true }

abbrev delta_header : DeltaHeader
delta_header = record { node_id = "a"; addr = "10.0.0.1:8003"; entries = pos 0 }

abbrev pub entry_of_b : DigestEntry
entry_of_b = record { id = "b"; addr = "10.0.0.2:8003"; version = 3; left = false }

abbrev pub entry_of_c : DigestEntry
entry_of_c = record { id = "c"; addr = "10.0.0.3:8003"; version = 1; left = true }

abbrev first_entry : Entry
first_entry = record {
  key = "proxy_addr";
  value = "10.0.0.2:8000";
  version = 2;
  internal = false;
  deleted = false;
}

abbrev second_entry : Entry
second_entry = record {
  key = "endpoint:web";
  value = "2";
  version = 3;
  internal = false;
  deleted = false;
}

abbrev delta_of_b : DeltaEntry
delta_of_b = record { id = "b"; addr = "10.0.0.2:8003"; entries = first_entry ∷ second_entry ∷ [] }

abbrev delta_headers : List DeltaHeader
delta_headers =
    delta_header ∷ record { node_id = "b"; addr = "10.0.0.2:8003"; entries = pos 2 } ∷ []

-- The codec of a node that has delivered these.
unfoldable pub codecs : Codecs
unfolding table_codec
codecs = record {
  digest_header = table_codec dec_digest_header (digest_header ∷ []);
  digest_entry = table_codec dec_digest_entry (entry_of_b ∷ entry_of_c ∷ []);
  delta_header = table_codec dec_delta_header delta_headers;
  entry = table_codec dec_entry (first_entry ∷ second_entry ∷ []);
  join_header = no_codec;
  digest = no_codec;
  delta = no_codec;
}

digest_header-Faithful : Faithful codecs.digest_header
unfolding codecs
digest_header-Faithful = table_codec-Faithful dec_digest_header (digest_header ∷ [])

digest_entry-Faithful : Faithful codecs.digest_entry
unfolding codecs
digest_entry-Faithful = table_codec-Faithful dec_digest_entry (entry_of_b ∷ entry_of_c ∷ [])

delta_header-Faithful : Faithful codecs.delta_header
unfolding codecs
delta_header-Faithful = table_codec-Faithful dec_delta_header delta_headers

entry-Faithful : Faithful codecs.entry
unfolding codecs
entry-Faithful = table_codec-Faithful dec_entry (first_entry ∷ second_entry ∷ [])

-- A packet that is too short for the last entry.
abbrev delta_packet : Bytes
delta_packet = 2 ∷ 0 ∷ 0 ∷ 1 ∷ 0 ∷ []

delta_packet-encode : encode_delta codecs delta_header (delta_of_b ∷ []) 5 ≡ ok delta_packet
unfolding codecs encode_delta dec_delta_header dec_entry index same ℕ_discrete
delta_packet-encode = refl

decode-encode_delta_example :
    (cut : List DeltaEntry) × IsCut (delta_of_b ∷ []) cut
    × (decode_delta codecs (length delta_packet) delta_packet ≡ ok (delta_header, cut))
decode-encode_delta_example =
    decode-encode_delta codecs delta_header (delta_of_b ∷ []) 5 delta_packet delta_header-Faithful
      entry-Faithful delta_packet-encode

encode_delta-le_example : length delta_packet ≤ 5
encode_delta-le_example =
    encode_delta-le codecs delta_header (delta_of_b ∷ []) 5 delta_packet delta_packet-encode

decode-Ends_example :
    (decode_digest codecs (length delta_packet) delta_packet ≢ err stuck)
    × (decode_delta codecs (length delta_packet) delta_packet ≢ err stuck)
decode-Ends_example =
    decode-Ends codecs delta_packet digest_header-Faithful.consumes digest_entry-Faithful.consumes
      delta_header-Faithful.consumes entry-Faithful.consumes
