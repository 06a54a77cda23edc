-- ===== src/Gossip/Protocol/RoundTrip.antt =====
-- A packet is read back as what fitted into it.
use mathlib.Core.List.{append-nil, append_assoc}
use piko.Prelude.{
  ℕ, zero, suc, ◌<◌, ◌≡◌, refl, sym, ap, ◌∙◌, inl, inr, true, some, List, [], ◌∷◌, ◌++◌, length,
  length-append, ltb, ok, >>=-eq-ok, Bool-cases, arith,
}
use piko.Prelude.Int.{pos}
use piko.Gossip.State.{Entry, DeltaEntry}
use piko.Gossip.Protocol.{
  value, eof, Bytes, Codec, Codecs, Buffer, size, write, commit, encode_value, encode_all,
  entry_header, encode_deltas, decode_entries, decode_deltas,
}
use piko.Gossip.Protocol.Cut.{
  Faithful, IsCut, nothing, part, whole, Encodes, encode_value-write, commit-write, encode_all-Sent,
  length-encode,
}

module _ (c : Codec Entry) (f : Faithful c) where
  read_entry :
      (fuel n : ℕ) (b rest : Bytes) (e : Entry) (r : List Entry × Bytes)
      → c.decode b ≡ value e rest
      → decode_entries c fuel (pos n) rest ≡ ok r
      → decode_entries c (suc fuel) (pos (suc n)) b ≡ ok (e ∷ r.0, r.1)
  unfolding decode_entries
  read_entry fuel n b rest e r h g = ground arith

  read_end :
      (fuel n : ℕ) (b : Bytes)
      → c.decode b ≡ eof
      → decode_entries c (suc fuel) (pos (suc n)) b ≡ ok ([], b)
  unfolding decode_entries
  read_end fuel n b h = ground arith

  shorter :
      (u : Entry) (x y z : Bytes) (fuel : ℕ)
      → c.encode u ≡ some y
      → x ≡ y ++ z
      → length x < suc fuel
      → length z < fuel
  shorter u x y z fuel e p l =
      omega (arith, ap length p, length-append {0} y z, length-encode c f u y e)

  -- All the entries that the header counts are there, and other bytes behind them.
  decode_entries-all :
      (us : List Entry) (x tail : Bytes) (fuel : ℕ)
      → Encodes c us x
      → length x < fuel
      → decode_entries c fuel (pos (length us)) (x ++ tail) ≡ ok (us, tail)
  unfolding decode_entries
  decode_entries-all us x tail zero h l = absurd (omega arith)
  decode_entries-all [] x tail (suc fuel) h l = rw h refl
  decode_entries-all (u ∷ us) x tail (suc fuel) (y, z, e, p, h) l =
      read_entry fuel (length us) (x ++ tail) (z ++ tail) u (us, tail)
        (ap (λ t. c.decode (t ++ tail)) p
          ∙ ap c.decode (append_assoc y z tail)
          ∙ f.reads u y (z ++ tail) e)
        (decode_entries-all us z tail fuel h (shorter u x y z fuel e p l))

  -- The input ends behind the entries, of which the header may count more.
  decode_entries-short :
      (us left : List Entry) (x : Bytes) (fuel : ℕ)
      → Encodes c us x
      → length x < fuel
      → decode_entries c fuel (pos (length (us ++ left))) x ≡ ok (us, [])
  unfolding decode_entries
  decode_entries-short us left x zero h l = absurd (omega arith)
  decode_entries-short [] [] x (suc fuel) h l = rw h refl
  decode_entries-short [] (v ∷ left) x (suc fuel) h l = rw h (read_end fuel (length left) [] f.ends)
  decode_entries-short (u ∷ us) left x (suc fuel) (y, z, e, p, h) l =
      read_entry fuel (length (us ++ left)) x z u (us, []) (ap c.decode p ∙ f.reads u y z e)
        (decode_entries-short us left z fuel h (shorter u x y z fuel e p l))

-- A buffer that is past the packet size gets nothing more to send.
encode_deltas-over :
    (c : Codecs) (most : ℕ) (ds : List DeltaEntry) (b b' : Buffer)
    → most < size b
    → encode_deltas c most ds b ≡ ok b'
    → b'.sent ≡ b.sent
unfolding encode_deltas
encode_deltas-over c most [] b b' o h = ground arith
encode_deltas-over c most (d ∷ ds) b b' o h =
    let (m, e, g) = >>=-eq-ok (encode_value c.delta_header (entry_header d) b) _ h in
    let (y, w, q) = encode_value-write c.delta_header (entry_header d) b m e in
    let more : most < size m =
      rw q (unfold size write in omega (arith, o, length-append {0} b.excess y)) in
    let t : ltb most (size m) ≡ true = ground arith in
    let p : m ≡ b' = ground arith in rw (← p) (rw q (unfold write in refl))

-- What the outer loop has put into the buffer is read back as the delta up to some entry.
pub record Read (c : Codecs) (ds : List DeltaEntry) (b b' : Buffer) : Type 0 where
  pub cut : List DeltaEntry
  pub bytes : Bytes
  pub is_cut : IsCut ds cut
  pub sent : b'.sent ≡ b.sent ++ bytes
  pub reads : (fuel : ℕ) → length bytes < fuel → decode_deltas c fuel bytes ≡ ok cut

module _ (c : Codecs) (fh : Faithful c.delta_header) (fe : Faithful c.entry) where
  reads_nothing : (fuel : ℕ) → 0 < fuel → decode_deltas c fuel [] ≡ ok []
  unfolding decode_deltas
  reads_nothing zero l = absurd (omega arith)
  reads_nothing (suc fuel) l = rw (decode_deltas, fh.ends) refl

  nothing-Read : (ds : List DeltaEntry) (b b' : Buffer) → b'.sent ≡ b.sent → Read c ds b b'
  nothing-Read ds b b' e = record {
    cut = [];
    bytes = [];
    is_cut = nothing ds;
    sent = e ∙ sym (append-nil b.sent);
    reads = reads_nothing;
  }

  -- One node's delta in front of others.
  read_delta :
      (d : DeltaEntry) (y x tail : Bytes) (us : List Entry) (cs : List DeltaEntry) (fuel : ℕ)
      → c.delta_header.encode (entry_header d) ≡ some y
      → decode_entries c.entry fuel (pos (length d.entries)) x ≡ ok (us, tail)
      → decode_deltas c fuel tail ≡ ok cs
      → decode_deltas c (suc fuel) (y ++ x) ≡ ok (record d { entries = us } ∷ cs)
  unfolding decode_deltas entry_header
  read_delta d y x tail us cs fuel e h g =
      rw (decode_deltas, fh.reads (entry_header d) y x e, h, g) refl

  read_part :
      (d : DeltaEntry) (y x : Bytes) (us left : List Entry) (fuel : ℕ)
      → c.delta_header.encode (entry_header d) ≡ some y
      → d.entries ≡ us ++ left
      → Encodes c.entry us x
      → length (y ++ x) < fuel
      → decode_deltas c fuel (y ++ x) ≡ ok (record d { entries = us } ∷ [])
  read_part d y x us left zero e p h l = absurd (omega arith)
  read_part d y x us left (suc fuel) e p h l =
      let long = length-encode c.delta_header fh (entry_header d) y e in
      let short : length x < fuel = omega (arith, length-append {0} y x) in
      read_delta d y x [] us [] fuel e
        (ap (λ t. decode_entries c.entry fuel (pos (length t)) x) p
          ∙ decode_entries-short c.entry fe us left x fuel h short)
        (reads_nothing fuel (omega arith))

  read_whole :
      (d : DeltaEntry) (y x tail : Bytes) (cs : List DeltaEntry) (fuel : ℕ)
      → c.delta_header.encode (entry_header d) ≡ some y
      → Encodes c.entry d.entries x
      → ((k : ℕ) → length tail < k → decode_deltas c k tail ≡ ok cs)
      → length (y ++ (x ++ tail)) < fuel
      → decode_deltas c fuel (y ++ (x ++ tail)) ≡ ok (d ∷ cs)
  read_whole d y x tail cs zero e h r l = absurd (omega arith)
  read_whole d y x tail cs (suc fuel) e h r l =
      let long = length-encode c.delta_header fh (entry_header d) y e in
      let sum = length-append {0} y (x ++ tail) in
      let sum' = length-append {0} x tail in
      read_delta d y (x ++ tail) tail d.entries cs fuel e
        (decode_entries-all c.entry fe d.entries x tail fuel h (omega arith)) (r fuel (omega arith))

  pub encode_deltas-Read :
      (most : ℕ) (ds : List DeltaEntry) (b b' : Buffer)
      → b.excess ≡ []
      → encode_deltas c most ds b ≡ ok b'
      → Read c ds b b'
  unfolding encode_deltas
  encode_deltas-Read most [] b b' n h = nothing-Read [] b b' (ground arith)
  encode_deltas-Read most (d ∷ ds) b b' n h =
      let (m, e, g) = >>=-eq-ok (encode_value c.delta_header (entry_header d) b) _ h in
      let (y, w, q) = encode_value-write c.delta_header (entry_header d) b m e in
      let long = length-encode c.delta_header fh (entry_header d) y w in
      elim (Bool-cases (ltb most (size m))) [
        | inl l ↦
            let p : m ≡ b' = ground arith in
            nothing-Read (d ∷ ds) b b' (rw (← p) (rw q (unfold write in refl)))
        | inr l ↦
            let (k, e', g') =
              >>=-eq-ok (encode_all c.entry most d.entries (commit m)) _ (rw l at g) in
            let s =
              encode_all-Sent c.entry most d.entries (commit m) k (unfold commit in refl) e' in
            let start : (commit m).sent ≡ b.sent ++ y =
              ap (λ t. (commit t).sent) q ∙ commit-write y b n in
            let middle : k.sent ≡ b.sent ++ (y ++ s.bytes) =
              s.sent ∙ ap (λ t. t ++ s.bytes) start ∙ append_assoc b.sent y s.bytes in
            elim s.over [
              | inr over ↦ record {
                cut = record d { entries = s.taken } ∷ [];
                bytes = y ++ s.bytes;
                is_cut = part d s.taken s.left ds s.split;
                sent = encode_deltas-over c most ds k b' over g' ∙ middle;
                reads = λ fuel. read_part d y s.bytes s.taken s.left fuel w s.split s.encodes;
              }
              | inl (none_left, clean) ↦
                  let rest = encode_deltas-Read most ds k b' clean g' in
                  let all : d.entries ≡ s.taken =
                    s.split ∙ ap (λ t. s.taken ++ t) none_left ∙ append-nil s.taken in
                  record {
                    cut = d ∷ rest.cut;
                    bytes = y ++ (s.bytes ++ rest.bytes);
                    is_cut = whole d ds rest.cut rest.is_cut;
                    sent =
                        rest.sent
                        ∙ ap (λ t. t ++ rest.bytes) middle
                        ∙ append_assoc b.sent (y ++ s.bytes) rest.bytes
                        ∙ ap (λ t. b.sent ++ t) (append_assoc y s.bytes rest.bytes);
                    reads = λ fuel.
                        read_whole d y s.bytes rest.bytes rest.cut fuel w (rw all s.encodes)
                          rest.reads;
                  }
            ]
      ]
