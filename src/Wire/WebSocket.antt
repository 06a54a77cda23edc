-- ===== src/Wire/WebSocket.antt =====
-- pkg/websocket/conn.go: a stream of bytes over the messages of a WebSocket. The WebSocket below is
-- a parameter: its calls are functions on a world of the user's choice.
use piko.Prelude.{
  ℕ, zero, suc, ◌+◌, ◌≤◌, ◌<◌, ◌≡◌, refl, sym, ap, ◌∙◌, ◌≢◌, ◌⊎◌, Bool, true, false, Option, none,
  some, List, [], ◌∷◌, ◌++◌, length, ◌==◌, ◌||◌, if◌then◌else◌, inl, inr, Result, ok, err, String,
  arith,
}
pub mod Stream
pub mod Dial

abbrev pub Bytes : Type 0
Bytes = List ℕ

-- What a call below can fail with: the end of a message, the WebSocket's close, or another error.
pub data Failure : Type 0 where
  eof close_error : Failure
  failure : String → Failure

pub data Error : Type 0 where
  closed : Error
  unexpected_type : ℕ → Error
  below : Failure → Error

abbrev pub binary_message : ℕ
binary_message = 2

-- The calls of the WebSocket below: the type of the next message, whose reader becomes the world's,
-- a read of at most so many bytes from that reader, and a message written.
pub record Socket (W : Type 0) : Type 0 where
  pub next_reader : W → Result Failure ℕ × W
  pub read_reader : ℕ → W → (Bytes × Option Failure) × W
  pub write_message : ℕ → Bytes → W → Option Failure × W

-- What a call of `Read` leaves: whether there is a reader, the world, and its results.
pub record Progress (W : Type 0) : Type 0 where
  pub reader : Bool
  pub world : W
  pub bytes : Bytes
  pub error : Option Error

-- The error of a call below that returned no bytes.
unfoldable pub of_failure : Failure → Error
of_failure close_error = closed
of_failure eof = below eof
of_failure (failure s) = below (failure s)

-- `Read` after the reader's call; `again` is the loop's next round.
unfoldable pub after_read :
    {W : Type 0} → (W → Option (Progress W)) → Bytes × Option Failure → W → Option (Progress W)
unfolding of_failure
after_read again ([], none) w = some (record { reader = true; world = w; bytes = []; error = none })
after_read again ([], some eof) w = again w
after_read again ([], some close_error) w =
    some (record { reader = true; world = w; bytes = []; error = some (of_failure close_error) })
after_read again ([], some (failure s)) w =
    some (record { reader = true; world = w; bytes = []; error = some (of_failure (failure s)) })
after_read again (b ∷ bs, none) w =
    some (record { reader = true; world = w; bytes = b ∷ bs; error = none })
after_read again (b ∷ bs, some eof) w =
    some (record { reader = false; world = w; bytes = b ∷ bs; error = none })
after_read again (b ∷ bs, some close_error) w =
    some (record { reader = false; world = w; bytes = b ∷ bs; error = some (below close_error) })
after_read again (b ∷ bs, some (failure s)) w =
    some (record { reader = false; world = w; bytes = b ∷ bs; error = some (below (failure s)) })

-- `Read` into a buffer of so many bytes. One unit of fuel is one round of its loop.
unfoldable pub read : {W : Type 0} → Socket W → ℕ → ℕ → Bool → W → Option (Progress W)
unfolding after_read
read s zero len reader w = none
read s (suc f) len true w = let r = s.read_reader len w in after_read (read s f len false) r.0 r.1
read s (suc f) len false w =
    let n = s.next_reader w in
    elim n.0 [
      | err e ↦
          some (record { reader = false; world = n.1; bytes = []; error = some (of_failure e) })
      | ok mt ↦
          let r = s.read_reader len n.1 in
          if mt == binary_message
          then after_read (read s f len false) r.0 r.1
          else some (record {
            reader = false;
            world = n.1;
            bytes = [];
            error = some (unexpected_type mt);
          })
    ]

-- `Write`
unfoldable pub write : {W : Type 0} → Socket W → Bytes → W → Result Error ℕ × W
unfolding of_failure
write s b w =
    let r = s.write_message binary_message b w in
    (elim r.0 [ none ↦ ok (length b) | some e ↦ err (of_failure e) ], r.1)
