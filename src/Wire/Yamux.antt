-- ===== src/Wire/Yamux.antt =====
-- pkg/yamuxconn/conn.go: the header of a data frame is held back and sent with its body. The
-- connection below is a parameter; the scratch buffer is left out.
use mathlib.Core.List.{append-nil, append_assoc}
use piko.Prelude.{
  ℕ, ◌+◌, ◌*◌, ◌≡◌, refl, sym, List-cases, ap, ◌∙◌, Bool, true, ◌&&◌, Option, none, some, List, [],
  ◌∷◌, ◌++◌, length, get_elem?, ltb, ◌==◌, if◌then◌else◌, Bool-cases, inl, inr, Result, ok, err,
}

abbrev pub Bytes : Type 0
Bytes = List ℕ

abbrev pub header_size : ℕ
header_size = 12

abbrev pub type_data : ℕ
type_data = 0

pub record Conn : Type 0 where
  pub pending : Bytes

-- `New`
abbrev pub new_conn : Conn
new_conn = record { pending = [] }

-- b[i], for an index in range
unfoldable pub at : Bytes → ℕ → ℕ
at b i = elim (get_elem? b i) [ none ↦ 0 | some n ↦ n ]

-- binary.BigEndian.Uint32(b[i:])
unfoldable pub big_endian : Bytes → ℕ → ℕ
unfolding at
big_endian b i = at b i * 16777216 + at b (i + 1) * 65536 + at b (i + 2) * 256 + at b (i + 3)

-- `isDataHeader`
unfoldable pub is_data_header : Bytes → Bool
unfolding at big_endian
is_data_header b = (length b == header_size) && ((at b 1 == type_data) && ltb 0 (big_endian b 8))

-- What a call of `Write` leaves: the connection, what it passed to the connection below, if it did,
-- and its result.
pub record Written (E : Type 0) : Type 0 where
  pub conn : Conn
  pub passed : Option Bytes
  pub result : Result E ℕ

-- `Write`; `below` is the `Write` of the connection below.
unfoldable pub write : {E : Type 0} → (Bytes → Result E ℕ) → Bytes → Conn → Written E
unfolding is_data_header
write below b c = elim c.pending [
  | [] ↦
      if is_data_header b
      then record { conn = record { pending = b }; passed = none; result = ok (length b) }
      else record { conn = c; passed = some b; result = below b }
  | p ∷ ps ↦ record {
    conn = record { pending = [] };
    passed = some ((p ∷ ps) ++ b);
    result = elim (below ((p ∷ ps) ++ b)) [ err e ↦ err e | ok n ↦ ok (length b) ];
  }
]

-- What one call passed on, with what was passed before the next.
unfoldable pub passed_then : Option Bytes → List Bytes → List Bytes
passed_then none rest = rest
passed_then (some b) rest = b ∷ rest

-- The connection after some writes, with all that was passed on.
unfoldable pub write_all :
    {E : Type 0} → (Bytes → Result E ℕ) → List Bytes → Conn → Conn × List Bytes
unfolding write passed_then
write_all below [] c = (c, [])
write_all below (b ∷ bs) c =
    let w = write below b c in let r = write_all below bs w.conn in (r.0, passed_then w.passed r.1)

unfoldable pub concat : List Bytes → Bytes
concat [] = []
concat (b ∷ bs) = b ++ concat bs

concat-passed_then :
    (o : Option Bytes) (rest : List Bytes) (more : Bytes)
    → concat (passed_then o rest) ++ more ≡ concat (passed_then o []) ++ (concat rest ++ more)
unfolding concat passed_then
concat-passed_then none rest more = refl
concat-passed_then (some b) rest more =
    append_assoc b (concat rest) more ∙ ap (λ x. x ++ (concat rest ++ more)) (sym (append-nil b))

-- One call: what it passed on, with what it holds back, is what was held back and what it was given.
write-pending :
    {E : Type 0} (below : Bytes → Result E ℕ) (b : Bytes) (c : Conn)
    → concat (passed_then (write below b c).passed []) ++ (write below b c).conn.pending
      ≡ c.pending ++ b
unfolding write concat passed_then
write-pending below b c = elim (List-cases c.pending) [
  | inl e ↦ elim (Bool-cases (is_data_header b)) [
    | inl h ↦ rw (e, h) refl
    | inr h ↦ rw (e, h) (append-nil (b ++ []) ∙ append-nil b)
  ]
  | inr (p, ps, e) ↦ rw e (append-nil (((p ∷ ps) ++ b) ++ []) ∙ append-nil ((p ∷ ps) ++ b))
]

-- However frames are split into writes, and whether the connection below fails or not: what was
-- passed to it, with the header held back, is byte for byte what was written.
pub write_all-concat :
    {E : Type 0} (below : Bytes → Result E ℕ) (bs : List Bytes) (c : Conn)
    → concat (write_all below bs c).1 ++ (write_all below bs c).0.pending ≡ c.pending ++ concat bs
unfolding write_all concat
write_all-concat below [] c = sym (append-nil c.pending)
write_all-concat below (b ∷ bs) c =
    let w = write below b c in
    let r = write_all below bs w.conn in
    concat-passed_then w.passed r.1 r.0.pending
    ∙ ap (λ x. concat (passed_then w.passed []) ++ x) (write_all-concat below bs w.conn)
    ∙ sym (append_assoc (concat (passed_then w.passed [])) w.conn.pending (concat bs))
    ∙ ap (λ x. x ++ concat bs) (write-pending below b c)
    ∙ append_assoc c.pending b (concat bs)

-- A data frame's header and then its body, on a connection that holds nothing back: the connection
-- below gets one write, of both, and holds nothing back again. With `below` failing, the call with
-- the body returns its error.
pub write-data_frame :
    {E : Type 0} (below : Bytes → Result E ℕ) (header body : Bytes) (c : Conn)
    → c.pending ≡ []
    → is_data_header header ≡ true
    → (write_all below (header ∷ body ∷ []) c ≡ (new_conn, (header ++ body) ∷ []))
      × ((e : E)
          → below (header ++ body) ≡ err e
          → (write below body (write below header c).conn).result ≡ err e)
unfolding write_all write passed_then
write-data_frame below [] body c nothing is_data = cc
write-data_frame below (h ∷ hs) body c nothing is_data =
    rw (nothing, is_data) (refl, λ e failed. rw failed refl)
