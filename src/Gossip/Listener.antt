-- ===== src/Gossip/Listener.antt =====
-- pkg/gossip/listener.go: what a node does with a packet, and with the message of a stream. The
-- network, the codec and the shuffle of a digest are parameters; the log lines are left out.
pub mod Snapshot
use mathlib.Core.Option
use piko.Prelude.{
  ℕ, zero, suc, ◌+◌, String, Bool, true, false, Option, none, some, List, [], ◌∷◌, ◌++◌, map,
  length, ltb, ◌==◌, if◌then◌else◌, Result, ok, err, ◌>>=◌,
}
use piko.Prelude.Int.{pos}
use piko.Gossip.State
use piko.Gossip.State.{NodeMetadata, DigestEntry, DeltaEntry, ClusterState, entries_total}
use piko.Gossip.Local.{local_node_metadata}
use piko.Gossip.Exchange.{digest, delta}
use piko.Gossip.Remote.{apply_digest, apply_delta}
use piko.Gossip.Protocol.{
  Bytes, Codecs, DigestHeader, DeltaHeader, JoinHeader, Error, encode_error, read_error,
  packet_too_small, panic, unsupported_version, unsupported_message_type, resolve_error,
  write_error, digest_type, delta_type, join_type, leave_type, supported_version, encode_digest,
  encode_delta, decode_value, decode_digest, decode_delta, Codec,
}

-- The counters of the metrics.
pub data Counter : Type 0 where
  digest_inbound digest_outbound delta_inbound delta_outbound packet_bytes_outbound : Counter
  connections_outbound : Counter

-- What a handler does besides its change of the state, in order: a call of the state, a report to
-- the failure detector, a packet, the answer on a stream, a counter.
pub data Output : Type 0 where
  of_state : State.Effect → Output
  report : String → Output
  send : String → Bytes → Output
  reply : Bytes → Output
  count : Counter → ℕ → Output

-- What the node is given: the codec, `maxPacketSize`, whether an address resolves, whether a write of
-- a packet or a flush of a stream succeeds, and the order that the shuffle makes.
pub record Environment : Type 0 where
  pub codecs : Codecs
  pub max_packet_size : ℕ
  pub resolves : String → Bool
  pub writes : String → Bytes → Bool
  pub flushes : Bytes → Bool
  pub shuffle : List DigestEntry → List DigestEntry

-- The outputs of some steps, and the error that ended them.
abbrev pub Run : Type 0
Run = List Output × Option Error

-- Goes on unless there was an error.
unfoldable pub and_then : Run → Run → Run
and_then (o, none) (p, e) = (o ++ p, e)
and_then (o, some e) r = (o, some e)

abbrev pub of_effects : State.Effects → List Output
of_effects = map of_state

-- The bytes of a stream's answer.
unfoldable pub encode_bytes : {A : Type 0} → Codec A → A → Result Error Bytes
encode_bytes c v = elim (c.encode v) [ none ↦ err encode_error | some b ↦ ok b ]

unfoldable pub own_header : ClusterState → Result Error JoinHeader
unfolding local_node_metadata
own_header s = elim (local_node_metadata s) [
  | none ↦ err panic
  | some m ↦ ok (record { node_id = m.id; addr = m.addr })
]

unfoldable pub run_of : Result Error Run → Run
run_of (ok r) = r
run_of (err e) = ([], some e)

module _ (env : Environment) where
  -- The end of `sendDelta` and of `sendDigest`.
  unfoldable pub send_packet : String → Result Error Bytes → Run
  send_packet addr (err e) = ([], some e)
  send_packet addr (ok b) =
      if env.resolves addr
      then (if env.writes addr b
          then (send addr b ∷ count packet_bytes_outbound (length b) ∷ [], none)
          else ([], some (write_error addr)))
      else ([], some (resolve_error addr))

  -- `sendDelta`
  unfoldable pub send_delta : List DeltaEntry → String → ClusterState → Run
  unfolding send_packet local_node_metadata
  send_delta d addr s = elim (local_node_metadata s) [
    | none ↦ ([], some panic)
    | some m ↦ send_packet addr (
        encode_delta env.codecs (record { node_id = m.id; addr = m.addr; entries = pos 0 }) d
          env.max_packet_size)
  ]

  -- `sendDigest`
  unfoldable pub send_digest : List DigestEntry → String → Bool → ClusterState → Run
  unfolding send_packet local_node_metadata
  send_digest d addr request s = elim (local_node_metadata s) [
    | none ↦ ([], some panic)
    | some m ↦ send_packet addr (
        encode_digest env.codecs (record { node_id = m.id; addr = m.addr; request = request })
          (env.shuffle d) env.max_packet_size)
  ]

  -- The answers to a digest, from the state that has applied it.
  unfoldable pub answer_digest : DigestHeader → List DigestEntry → ClusterState → Run
  unfolding send_delta send_digest and_then
  answer_digest h d s =
      let dl = delta s d false in
      and_then (send_delta dl h.addr s) (
        and_then (count delta_outbound (entries_total dl) ∷ [], none)
          (if h.request
            then and_then (send_digest (digest s) h.addr false s)
                (count digest_outbound (length (digest s)) ∷ [], none)
            else ([], none)))

  -- `packetListener.digest`
  unfoldable pub on_digest : Bytes → ClusterState → ClusterState × List Output × Option Error
  unfolding answer_digest
  on_digest b s = elim (decode_digest env.codecs (length b) b) [
    | err e ↦ (s, [], some e)
    | ok (h, d) ↦
        let (s', fx) = apply_digest h.node_id d s in
        let (o, e) = answer_digest h d s' in
        (s', count digest_inbound (length d) ∷ of_effects fx ++ o, e)
  ]

  -- `packetListener.delta`
  unfoldable pub on_delta : ℕ → Bytes → ClusterState → ClusterState × List Output × Option Error
  on_delta now b s = elim (decode_delta env.codecs (length b) b) [
    | err e ↦ (s, [], some e)
    | ok (h, d) ↦
        let (s', fx) = apply_delta h.node_id now d s in
        (s', count delta_inbound (entries_total d) ∷ report h.node_id ∷ of_effects fx, none)
  ]

  -- `handlePacket`; the error for an unknown type has the version.
  unfoldable pub handle_packet :
      ℕ → Bytes → ClusterState → ClusterState × List Output × Option Error
  unfolding on_digest on_delta
  handle_packet now [] s = (s, [], some packet_too_small)
  handle_packet now (t ∷ []) s = (s, [], some packet_too_small)
  handle_packet now (t ∷ v ∷ b) s =
      if v == supported_version
      then (if t == digest_type
          then on_digest (t ∷ v ∷ b) s
          else if t == delta_type
          then on_delta now (t ∷ v ∷ b) s
          else (s, [], some (unsupported_message_type v)))
      else (s, [], some (unsupported_version v))

  -- Writes what the buffered writer holds.
  unfoldable pub flush : Bytes → List Output → Run
  flush b o = if env.flushes b then (reply b ∷ o, none) else (o, some (write_error ""))

  -- The answer to a join: our header, and what the other node does not know.
  unfoldable pub answer_join : List DigestEntry → ClusterState → Run
  unfolding run_of own_header encode_bytes flush
  answer_join d s = run_of (
      own_header s >>= λ m. encode_bytes env.codecs.join_header m >>= λ x.
      let dl = delta s d true in
      encode_bytes env.codecs.delta dl >>= λ y.
      ok (and_then (count delta_outbound (entries_total dl) ∷ [], none) (flush (x ++ y) [])))

  unfoldable pub decode_join :
      Bytes → Result Error (JoinHeader × List DeltaEntry × List DigestEntry)
  unfolding decode_value
  decode_join b = decode_value env.codecs.join_header b >>= λ h.
      decode_value env.codecs.delta h.1 >>= λ dl.
      decode_value env.codecs.digest dl.1 >>= λ d. ok (h.0, dl.0, d.0)

  -- `streamListener.join`
  unfoldable pub on_join : ℕ → Bytes → ClusterState → ClusterState × List Output × Option Error
  unfolding decode_join answer_join
  on_join now b s = elim (decode_join b) [
    | err e ↦ (s, [], some e)
    | ok (h, dl, d) ↦
        let (s', fx) = apply_delta h.node_id now dl s in
        let (s'', gx) = apply_digest h.node_id d s' in
        let (o, e) = answer_join d s'' in
        (
          s'',
          count delta_inbound (entries_total dl) ∷ count digest_inbound (length d) ∷ of_effects fx
              ++ of_effects gx
              ++ o,
          e,
        )
  ]

  unfoldable pub decode_leave : Bytes → Result Error (JoinHeader × List DeltaEntry)
  unfolding decode_value
  decode_leave b = decode_value env.codecs.join_header b >>= λ h.
      decode_value env.codecs.delta h.1 >>= λ dl. ok (h.0, dl.0)

  -- `streamListener.leave`
  unfoldable pub on_leave : ℕ → Bytes → ClusterState → ClusterState × List Output × Option Error
  unfolding decode_leave run_of own_header encode_bytes flush
  on_leave now b s = elim (decode_leave b) [
    | err e ↦ (s, [], some e)
    | ok (h, dl) ↦
        let (s', fx) = apply_delta h.node_id now dl s in
        let (o, e) =
          run_of (
            own_header s' >>= λ m.
            encode_bytes env.codecs.join_header m >>= λ x. ok (flush x [])) in
        (s', count delta_inbound (entries_total dl) ∷ of_effects fx ++ o, e)
  ]

  -- `handleConn`, from the first byte.
  unfoldable pub handle_conn : ℕ → Bytes → ClusterState → ClusterState × List Output × Option Error
  unfolding on_join on_leave
  handle_conn now [] s = (s, [], some read_error)
  handle_conn now (t ∷ []) s = (s, [], some read_error)
  handle_conn now (t ∷ v ∷ b) s =
      if v == supported_version
      then (if t == join_type
          then on_join now b s
          else if t == leave_type
          then on_leave now b s
          else (s, [], some (unsupported_message_type v)))
      else (s, [], some (unsupported_version v))
