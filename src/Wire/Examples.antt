-- ===== src/Wire/Examples.antt =====
-- A frame of twelve and two bytes, and a socket with two messages.
use piko.Prelude.{
  ℕ, ◌≤◌, ◌<◌, ◌⊎◌, ◌≡◌, refl, ◌≢◌, false, Option, none, some, List, [], ◌∷◌, ◌++◌, length, Result,
  ok, err, inl, inr, arith,
}
use piko.Wire.Yamux.{Bytes, concat}
use piko.Wire.WebSocket.{Failure, eof, close_error, Socket, read}
use piko.Wire.WebSocket.Stream.{IsStream, Advances, remaining, rounds, read-Advances}

-- The header of a data frame with a body of two bytes.
abbrev header : Bytes
header = 0 ∷ 0 ∷ 0 ∷ 0 ∷ 0 ∷ 0 ∷ 0 ∷ 1 ∷ 0 ∷ 0 ∷ 0 ∷ 2 ∷ []

abbrev body : Bytes
body = 7 ∷ 8 ∷ []

-- A connection below that takes what it is given.
abbrev takes : Bytes → Result Failure ℕ
takes b = ok (length b)

-- A world of what is left of a message, and the messages to come.
abbrev World : Type 0
World = Bytes × List Bytes

-- The first byte of what is left, with the message's end if it is the last.
abbrev first_byte : World → (Bytes × Option Failure) × World
first_byte ([], ms) = (([], some eof), ([], ms))
first_byte (b ∷ [], ms) = ((b ∷ [], some eof), ([], ms))
first_byte (b ∷ c ∷ bs, ms) = ((b ∷ [], none), (c ∷ bs, ms))

abbrev next_message : World → Result Failure ℕ × World
next_message (left, []) = (err close_error, (left, []))
next_message (left, m ∷ ms) = (ok 2, (m, ms))

abbrev socket : Socket World
socket = record {
  next_reader = next_message;
  read_reader = λ len w. first_byte w;
  write_message = λ t b w. (none, w);
}

abbrev left_of : World → Bytes
left_of w = w.0

abbrev to_come : World → List Bytes
to_come w = w.1

socket-next :
    (w : World) (m : Bytes) (ms : List Bytes)
    → to_come w ≡ m ∷ ms
    → (v : World) × (next_message w ≡ (ok 2, v)) × (left_of v ≡ m) × (to_come v ≡ ms)
socket-next (left, []) m ms h = cc
socket-next (left, k ∷ ks) m ms h = ((k, ks), refl, ground arith, ground arith)

socket-ends :
    (w : World)
    → left_of w ≡ []
    → (v : World) × (first_byte w ≡ (([], some eof), v)) × (to_come v ≡ to_come w)
socket-ends ([], ms) empty = (([], ms), refl, refl)
socket-ends (b ∷ bs, ms) empty = absurd (ground arith)

socket-part :
    (len : ℕ) (w : World)
    → 0 < len
    → left_of w ≢ []
    → (b : ℕ) × (bs : Bytes) × (e : Option Failure) × (v : World) × (first_byte w
        ≡ ((b ∷ bs, e), v))
      × ((b ∷ bs) ++ left_of v ≡ left_of w)
      × (to_come v ≡ to_come w)
      × (length (b ∷ bs) ≤ len)
      × ((e ≡ none) ⊎ ((e ≡ some eof) × (left_of v ≡ [])))
socket-part len ([], ms) pos more = absurd (more refl)
socket-part len (b ∷ [], ms) pos more =
    (b, [], some eof, ([], ms), refl, refl, refl, omega arith, inr (refl, refl))
socket-part len (b ∷ c ∷ bs, ms) pos more =
    (b, [], none, (c ∷ bs, ms), refl, refl, refl, omega arith, inl refl)

socket-IsStream : IsStream socket left_of to_come
socket-IsStream = record {
  next_opens = socket-next;
  read_ends = λ len w empty. socket-ends w empty;
  read_part = socket-part;
}

read-Advances_example :
    Advances socket left_of to_come 4
      (7 ∷ 8 ∷ [])
      (read socket 4 4 false ([], (7 ∷ 8 ∷ []) ∷ [] ∷ []))
unfolding remaining concat rounds
read-Advances_example =
    read-Advances socket left_of to_come socket-IsStream 4 4 false ([], (7 ∷ 8 ∷ []) ∷ [] ∷ [])
      (omega arith) (omega arith) (λ z. cc)
