-- ===== src/Gossip/Protocol.antt =====
-- pkg/gossip/protocol.go: the packets of digests and deltas. A byte is a number. The msgpack codec
-- is the library's, and a parameter.
pub mod Bounds
pub mod Total
pub mod Cut
pub mod RoundTrip
pub mod Packets
pub mod Examples
use mathlib.Core.Option
use piko.Prelude.{
  ℕ, zero, suc, ◌+◌, String, Bool, true, false, Option, none, some, List, [], ◌∷◌, ◌++◌, map,
  length, ltb, ◌==◌, if◌then◌else◌, Result, ok, err, ◌>>=◌,
}
use piko.Prelude.Int.{ℤ, pos, dec_int, is_zero}
use piko.Gossip.State.{Entry, DigestEntry, DeltaEntry}

abbrev pub Bytes : Type 0
Bytes = List ℕ

abbrev pub digest_type : ℕ
digest_type = 1

abbrev pub delta_type : ℕ
delta_type = 2

abbrev pub join_type : ℕ
join_type = 3

abbrev pub leave_type : ℕ
leave_type = 4

abbrev pub supported_version : ℕ
supported_version = 0

pub record DigestHeader : Type 0 where
  pub node_id : String
  pub addr : String
  pub request : Bool

pub record DeltaHeader : Type 0 where
  pub node_id : String
  pub addr : String
  pub entries : ℤ

-- `joinHeader` and `leaveHeader`
pub record JoinHeader : Type 0 where
  pub node_id : String
  pub addr : String

-- The errors, by what the code was doing. `panic` is a panic and `stuck` no Go value: the fuel of a
-- loop ran out.
pub data Error : Type 0 where
  encode_error read_error decode_error packet_too_small panic stuck : Error
  header_too_large : ℕ → ℕ → Error
  incorrect_message_type unsupported_version unsupported_message_type : ℕ → Error
  resolve_error write_error : String → Error

-- What a decoder reads: a value and the bytes behind it, the end of the input, or an error.
pub data Decoded (A : Type 0) : Type 0 where
  value : A → Bytes → Decoded A
  eof : Decoded A
  failed : Decoded A

-- The codec, at one type of values.
pub record Codec (A : Type 0) : Type 0 where
  pub encode : A → Option Bytes
  pub decode : Bytes → Decoded A

pub record Codecs : Type 0 where
  pub digest_header : Codec DigestHeader
  pub digest_entry : Codec DigestEntry
  pub delta_header : Codec DeltaHeader
  pub entry : Codec Entry
  pub join_header : Codec JoinHeader
  pub digest : Codec (List DigestEntry)
  pub delta : Codec (List DeltaEntry)

-- A buffer: the bytes before `bufLen`, and those behind.
pub record Buffer : Type 0 where
  pub sent : Bytes
  pub excess : Bytes

-- `buf.Len()`
unfoldable pub size : Buffer → ℕ
size b = length b.sent + length b.excess

unfoldable pub write : Bytes → Buffer → Buffer
write x b = record b { excess = b.excess ++ x }

-- `bufLen = buf.Len()`
unfoldable pub commit : Buffer → Buffer
commit b = record { sent = b.sent ++ b.excess; excess = [] }

unfoldable pub encode_value : {A : Type 0} → Codec A → A → Buffer → Result Error Buffer
unfolding write
encode_value c v b = elim (c.encode v) [ none ↦ err encode_error | some x ↦ ok (write x b) ]

-- The loop over entries: it ends at the first that does not fit.
unfoldable pub encode_all : {A : Type 0} → Codec A → ℕ → List A → Buffer → Result Error Buffer
unfolding encode_value size commit
encode_all c most [] b = ok b
encode_all c most (v ∷ vs) b = encode_value c v b >>= λ b'. elim (ltb most (size b')) [
  | true ↦ ok b'
  | false ↦ encode_all c most vs (commit b')
]

-- The first bytes of a packet with its header.
unfoldable pub encode_header : {A : Type 0} → Codec A → ℕ → A → ℕ → Result Error Buffer
unfolding encode_value size commit
encode_header c message_type header most =
    encode_value c header (record { sent = []; excess = message_type ∷ supported_version ∷ [] })
    >>= λ b. if ltb most (size b) then err (header_too_large most (size b)) else ok (commit b)

-- `encodeDigest`
unfoldable pub encode_digest : Codecs → DigestHeader → List DigestEntry → ℕ → Result Error Bytes
unfolding encode_header encode_all
encode_digest c header digest most = encode_header c.digest_header digest_type header most >>= λ b.
    encode_all c.digest_entry most digest b >>= λ b'. ok b'.sent

unfoldable pub entry_header : DeltaEntry → DeltaHeader
entry_header d = record { node_id = d.id; addr = d.addr; entries = pos (length d.entries) }

-- The outer loop of `encodeDelta`.
unfoldable pub encode_deltas : Codecs → ℕ → List DeltaEntry → Buffer → Result Error Buffer
unfolding encode_value size commit encode_all entry_header
encode_deltas c most [] b = ok b
encode_deltas c most (d ∷ ds) b = encode_value c.delta_header (entry_header d) b >>= λ b'.
    elim (ltb most (size b')) [
      | true ↦ ok b'
      | false ↦ encode_all c.entry most d.entries (commit b') >>= λ b''. encode_deltas c most ds b''
    ]

-- `encodeDelta`
unfoldable pub encode_delta : Codecs → DeltaHeader → List DeltaEntry → ℕ → Result Error Bytes
unfolding encode_header encode_deltas
encode_delta c header delta most = encode_header c.delta_header delta_type header most >>= λ b.
    encode_deltas c most delta b >>= λ b'. ok b'.sent

-- The two bytes at the front.
unfoldable pub read_type : ℕ → Bytes → Result Error Bytes
read_type message_type [] = err read_error
read_type message_type (t ∷ b) =
    if t == message_type
    then (elim b [
      | [] ↦ err read_error
      | v ∷ rest ↦ if v == supported_version then ok rest else err (unsupported_version v)
    ])
    else err (incorrect_message_type t)

unfoldable pub decode_value : {A : Type 0} → Codec A → Bytes → Result Error (A × Bytes)
decode_value c b = elim (c.decode b) [
  | value v rest ↦ ok (v, rest)
  | eof ↦ err decode_error
  | failed ↦ err decode_error
]

-- Entries until the end of the input.
unfoldable pub decode_all : {A : Type 0} → Codec A → ℕ → Bytes → Result Error (List A)
decode_all c zero b = err stuck
decode_all c (suc f) b = elim (c.decode b) [
  | value v rest ↦ decode_all c f rest >>= λ vs. ok (v ∷ vs)
  | eof ↦ ok []
  | failed ↦ err decode_error
]

-- `decodeDigest`
unfoldable pub decode_digest : Codecs → ℕ → Bytes → Result Error (DigestHeader × List DigestEntry)
unfolding read_type decode_value decode_all
decode_digest c fuel b = read_type digest_type b >>= λ rest.
    decode_value c.digest_header rest >>= λ h.
    decode_all c.digest_entry fuel h.1 >>= λ digest. ok (h.0, digest)

-- The inner loop of `decodeDelta`: `n` entries, or until the end of the input.
unfoldable pub decode_entries : Codec Entry → ℕ → ℤ → Bytes → Result Error (List Entry × Bytes)
unfolding is_zero dec_int
decode_entries c zero n b = err stuck
decode_entries c (suc f) n b = elim (is_zero n) [
  | true ↦ ok ([], b)
  | false ↦ elim (c.decode b) [
    | value e rest ↦ decode_entries c f (dec_int n) rest >>= λ r. ok (e ∷ r.0, r.1)
    | eof ↦ ok ([], b)
    | failed ↦ err decode_error
  ]
]

-- The outer loop.
unfoldable pub decode_deltas : Codecs → ℕ → Bytes → Result Error (List DeltaEntry)
unfolding decode_entries
decode_deltas c zero b = err stuck
decode_deltas c (suc f) b = elim (c.delta_header.decode b) [
  | value h rest ↦ decode_entries c.entry f h.entries rest >>= λ r. decode_deltas c f r.1 >>= λ ds.
      ok (record { id = h.node_id; addr = h.addr; entries = r.0 } ∷ ds)
  | eof ↦ ok []
  | failed ↦ err decode_error
]

-- `decodeDelta`
unfoldable pub decode_delta : Codecs → ℕ → Bytes → Result Error (DeltaHeader × List DeltaEntry)
unfolding read_type decode_value decode_deltas
decode_delta c fuel b = read_type delta_type b >>= λ rest.
    decode_value c.delta_header rest >>= λ h. decode_deltas c fuel h.1 >>= λ delta. ok (h.0, delta)
