-- ===== src/Gossip/Rounds.antt =====
-- pkg/gossip/gossip.go: the rounds of gossip, and joining and leaving a cluster. What other nodes and
-- the resolver answer is a parameter; the timers and the log lines are left out.
pub mod Packet
pub mod Leave
mod Examples
use mathlib.Core.Option
use piko.Prelude.{
  ℕ, zero, suc, ◌+◌, ◌%◌, String, Bool, true, false, not, ◌&&◌, ◌||◌, Option, none, some, List, [],
  ◌∷◌, ◌++◌, map, length, get_elem?, ltb, ◌==◌, if◌then◌else◌, same, ite, Result, ok, err, ◌>>=◌,
}
use piko.Prelude.Text.{contains_code}
use Prim.Native.String
use piko.Gossip.State.{NodeMetadata, DigestEntry, DeltaEntry, ClusterState, entries_total}
use piko.Gossip.Local.{
  is_same, local_node_metadata, nodes, live_nodes, unreachable_nodes, leave_local,
}
use piko.Gossip.Exchange.{digest, local_delta}
use piko.Gossip.Remote.{apply_delta}
use piko.Gossip.Protocol.{
  Bytes, Codec, Codecs, DigestHeader, JoinHeader, Error, panic, resolve_error, write_error,
  digest_type, join_type, leave_type, supported_version, Buffer, size, commit, encode_value,
  encode_header, decode_value,
}
use piko.Gossip.Listener.{
  Environment, Output, Run, send, count, digest_outbound, digest_inbound, delta_outbound,
  delta_inbound, packet_bytes_outbound, connections_outbound, and_then, of_effects, own_header,
  encode_bytes, run_of,
}

abbrev pub suspicion_threshold : ℕ
suspicion_threshold = 20

abbrev pub compact_threshold : ℕ
compact_threshold = 100

-- The loop of `gossip` over the digest, with the number of entries that fit.
unfoldable pub append_digest :
    {A : Type 0} → Codec A → ℕ → List A → Buffer → ℕ → Result Error (Buffer × ℕ)
unfolding encode_value size commit
append_digest c most [] b n = ok (b, n)
append_digest c most (v ∷ vs) b n = encode_value c v b >>= λ b'. elim (ltb most (size b')) [
  | true ↦ ok (b', n)
  | false ↦ append_digest c most vs (commit b') (n + 1)
]

-- How many entries that loop has counted when it ends, with an error or without one.
unfoldable pub append_count : {A : Type 0} → Codec A → ℕ → List A → Buffer → ℕ → ℕ
unfolding encode_value size commit
append_count c most [] b n = n
append_count c most (v ∷ vs) b n = elim (encode_value c v b) [
  | err e ↦ n
  | ok b' ↦ elim (ltb most (size b')) [
    | true ↦ n
    | false ↦ append_count c most vs (commit b') (n + 1)
  ]
]

module _ (env : Environment) where
  -- The number of entries that `gossip` has counted when it has made its packet, or failed to.
  unfoldable pub packet_count : NodeMetadata → List DigestEntry → ℕ
  unfolding append_count encode_header
  packet_count m d =
      elim (encode_header env.codecs.digest_header digest_type
        (record { node_id = m.id; addr = m.addr; request = true }) env.max_packet_size) [
          | err e ↦ 0
          | ok b ↦ append_count env.codecs.digest_entry env.max_packet_size (env.shuffle d) b 0
        ]

  -- The packet that `gossip` makes, and the number of its entries.
  unfoldable pub gossip_packet : NodeMetadata → List DigestEntry → Result Error (Bytes × ℕ)
  unfolding append_digest encode_header
  gossip_packet m d =
      encode_header env.codecs.digest_header digest_type
        (record { node_id = m.id; addr = m.addr; request = true }) env.max_packet_size
      >>= λ b.
          append_digest env.codecs.digest_entry env.max_packet_size (env.shuffle d) b 0 >>= λ r.
          ok (r.0.sent, r.1)

  -- `gossip`
  unfoldable pub gossip : NodeMetadata → ClusterState → Run
  unfolding gossip_packet packet_count local_node_metadata
  gossip node s = elim (local_node_metadata s) [
    | none ↦ ([], some panic)
    | some m ↦ elim (gossip_packet m (digest s)) [
      | err e ↦ (count digest_outbound (packet_count m (digest s)) ∷ [], some e)
      | ok (b, n) ↦
          if env.resolves node.addr
          then (if env.writes node.addr b
              then (
                count digest_outbound n
                    ∷ send node.addr b
                    ∷ count packet_bytes_outbound (length b)
                    ∷ [],
                none,
              )
              else (count digest_outbound n ∷ [], some (write_error node.addr)))
          else (count digest_outbound n ∷ [], some (resolve_error node.addr))
    ]
  ]

  -- The node of a random number, if there is one.
  unfoldable pub pick : ℕ → List NodeMetadata → Option NodeMetadata
  pick r [] = none
  pick r (n ∷ ns) = get_elem? (n ∷ ns) (r % length (n ∷ ns))

  unfoldable pub gossip_with : Option NodeMetadata → ClusterState → Run
  unfolding gossip
  gossip_with none s = ([], none)
  gossip_with (some n) s = gossip n s

  -- `gossipRound`, with its two random numbers.
  unfoldable pub gossip_round : ℕ → ℕ → ClusterState → Run
  unfolding gossip_with pick and_then live_nodes unreachable_nodes
  gossip_round r r' s =
      and_then (gossip_with (pick r (live_nodes s)) s)
        (gossip_with (pick r' (unreachable_nodes s)) s)

  -- What `join` writes to the other node.
  unfoldable pub join_request : ClusterState → Result Error Bytes
  unfolding own_header encode_bytes
  join_request s = own_header s >>= λ m. encode_bytes env.codecs.join_header m >>= λ x.
      (elim (local_delta s) [ none ↦ err panic | some d ↦ ok d ]) >>= λ d.
      encode_bytes env.codecs.delta d >>= λ y. encode_bytes env.codecs.digest (digest s) >>= λ z.
      ok (join_type ∷ supported_version ∷ x ++ y ++ z)

  unfoldable pub decode_answer : Bytes → Result Error (JoinHeader × List DeltaEntry)
  unfolding decode_value
  decode_answer b = decode_value env.codecs.join_header b >>= λ h.
      decode_value env.codecs.delta h.1 >>= λ d. ok (h.0, d.0)

  -- `join`, given the other node's answer to a request. The counters of what was sent are left to
  -- the caller of `join_request`.
  unfoldable pub join :
      ℕ
      → (Bytes → Result Error Bytes)
      → ClusterState
      → ClusterState × List Output × Result Error String
  unfolding join_request decode_answer
  join now answers s = elim (join_request s >>= λ x. answers x >>= λ b. decode_answer b) [
    | err e ↦ (s, [], err e)
    | ok (h, d) ↦
        let (s', fx) = apply_delta h.node_id now d s in
        (s', count delta_inbound (entries_total d) ∷ of_effects fx, ok h.node_id)
  ]

  -- What `leave` writes.
  unfoldable pub leave_request : ClusterState → Result Error Bytes
  unfolding own_header encode_bytes
  leave_request s = own_header s >>= λ m. encode_bytes env.codecs.join_header m >>= λ x.
      (elim (local_delta s) [ none ↦ err panic | some d ↦ ok d ]) >>= λ d.
      encode_bytes env.codecs.delta d >>= λ y. ok (leave_type ∷ supported_version ∷ x ++ y)

  -- `leave`: the error, if any, of telling one node.
  unfoldable pub leave : (Bytes → Result Error Bytes) → ClusterState → Option Error
  unfolding leave_request decode_value
  leave answers s =
      elim (leave_request s >>= λ x. answers x >>= λ b. decode_value env.codecs.join_header b) [
        | err e ↦ some e
        | ok h ↦ none
      ]

-- `Join` under way: the nodes that were joined, and the last error.
pub record Joining : Type 0 where
  pub state : ClusterState
  pub outputs : List Output
  pub joined : List String
  pub last_error : Option Error

-- The loop over the addresses of one name; `attempt` is `join`.
unfoldable pub join_resolved :
    (String → ClusterState → ClusterState × List Output × Result Error String)
    → List String
    → Joining
    → Joining
join_resolved attempt [] j = j
join_resolved attempt (addr ∷ addrs) j =
    let (s, o, r) = attempt addr j.state in
    join_resolved attempt addrs (elim r [
      | ok id ↦ record j { state = s; outputs = j.outputs ++ o; joined = j.joined ++ id ∷ [] }
      | err e ↦ record j { state = s; outputs = j.outputs ++ o; last_error = some e }
    ])

-- The loop over the names; `resolve` is `ensurePort` and `resolveAddr`, of which an error ends it.
unfoldable pub join_names :
    (String → Result Error (List String))
    → (String → ClusterState → ClusterState × List Output × Result Error String)
    → List String
    → Joining
    → Joining × Option Error
unfolding join_resolved
join_names resolve attempt [] j = (j, none)
join_names resolve attempt (name ∷ names) j = elim (resolve name) [
  | err e ↦ (j, some e)
  | ok addrs ↦ join_names resolve attempt names (join_resolved attempt addrs j)
]

-- The result of `Join`: an error where no node was joined and the last attempt failed.
unfoldable pub join_result : Joining × Option Error → Result Error (List String)
join_result (j, some e) = err e
join_result (j, none) = elim j.joined [
  | [] ↦ elim j.last_error [ none ↦ ok [] | some e ↦ err e ]
  | id ∷ ids ↦ ok (id ∷ ids)
]

-- `Join`
unfoldable pub join_cluster :
    (String → Result Error (List String))
    → (String → ClusterState → ClusterState × List Output × Result Error String)
    → List String
    → ClusterState
    → ClusterState × List Output × Result Error (List String)
unfolding join_names join_result
join_cluster resolve attempt names s =
    let r =
      join_names resolve attempt names
        (record { state = s; outputs = []; joined = []; last_error = none }) in
    (r.0.state, r.0.outputs, join_result r)

-- Whom `Leave` does not tell.
unfoldable pub is_skipped : String → NodeMetadata → Bool
is_skipped local_id n = is_same n.id local_id || (n.left || n.unreachable)

-- The loop of `Leave`: `tell` is the error of telling a node. The result has the nodes that were
-- told, and the error.
unfoldable pub leave_loop :
    (NodeMetadata → Option Error)
    → String
    → List NodeMetadata
    → ℕ
    → Option Error
    → List String × Option Error
unfolding is_skipped
leave_loop tell local_id [] notified last_error = ([], if ltb 0 notified then none else last_error)
leave_loop tell local_id (n ∷ ns) notified last_error = elim (is_skipped local_id n) [
  | true ↦ leave_loop tell local_id ns notified last_error
  | false ↦ elim (tell n) [
    | some e ↦ leave_loop tell local_id ns notified (some e)
    | none ↦ elim (ltb 3 (notified + 1)) [
      | true ↦ (n.id ∷ [], none)
      | false ↦ let r = leave_loop tell local_id ns (notified + 1) last_error in (n.id ∷ r.0, r.1)
    ]
  ]
]

-- `Leave`, on the nodes in the order of the shuffle, over the state that has left.
unfoldable pub leave_nodes :
    (NodeMetadata → Option Error) → String → List NodeMetadata → List String × Option Error
unfolding leave_loop
leave_nodes tell local_id ns = leave_loop tell local_id ns 0 none

-- `ensurePort`, given the port of the bind address; `none` is the panic on a bind address without
-- one.
unfoldable pub ensure_port : Option String → String → Option String
ensure_port bind_port addr =
    if contains_code b':' addr
    then some addr
    else Option.map (λ p. String.◌++◌ addr (String.◌++◌ ":" p)) bind_port

-- `resolveAddr`, given net.SplitHostPort, whether a host is an IP, and net.LookupIP.
unfoldable pub resolve_addr :
    (String → Option (String × String))
    → (String → Bool)
    → (String → Option (List String))
    → String
    → Result Error (List String)
resolve_addr split is_ip lookup_ip addr = elim (split addr) [
  | none ↦ err (resolve_error addr)
  | some (host, port) ↦ if is_ip host then ok (addr ∷ []) else elim (lookup_ip host) [
    | none ↦ err (resolve_error host)
    | some ips ↦ ok (map (λ ip. String.◌++◌ ip (String.◌++◌ ":" port)) ips)
  ]
]
