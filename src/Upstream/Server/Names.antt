-- ===== src/Upstream/Server/Names.antt =====
-- server/upstream/server.go: the names of upstreams.
use piko.Prelude.{
  ℕ, zero, suc, ◌≤◌, ◌≡◌, ◌==◌, ltb, ◌||◌, Bool, false, Bool-cases, List, [], ◌∷◌, length, inl, inr,
  arith,
}
use piko.Upstream.Server.{
  max_name_len, rune_error, keep, trim_left, trim_right, push_trimmed, take, sanitize_name,
}

-- No rune of a text is dropped by a test.
unfoldable pub All : (ℕ → Bool) → List ℕ → Type 0
All drop [] = Unit {0}
All drop (r ∷ rs) = (drop r ≡ false) × All drop rs

All-keep : (drop : ℕ → Bool) (rs : List ℕ) → All drop (keep drop rs)
unfolding keep All
All-keep drop [] = tt
All-keep drop (r ∷ rs) = elim (Bool-cases (drop r)) [
  | inl y ↦ rw y (All-keep drop rs)
  | inr n ↦ rw n (n, All-keep drop rs)
]

All-trim_left :
    (drop is_space : ℕ → Bool) (rs : List ℕ) → All drop rs → All drop (trim_left is_space rs)
unfolding trim_left All
All-trim_left drop is_space [] h = tt
All-trim_left drop is_space (r ∷ rs) h = elim (Bool-cases (is_space r)) [
  | inl y ↦ rw y (All-trim_left drop is_space rs h.1)
  | inr n ↦ rw n h
]

All-push_trimmed :
    (drop is_space : ℕ → Bool) (r : ℕ) (rs : List ℕ)
    → drop r ≡ false
    → All drop rs
    → All drop (push_trimmed is_space r rs)
unfolding push_trimmed All
All-push_trimmed drop is_space r [] n h = elim (Bool-cases (is_space r)) [
  | inl y ↦ rw y tt
  | inr m ↦ rw m (n, tt)
]
All-push_trimmed drop is_space r (s ∷ rs) n h = (n, h)

All-trim_right :
    (drop is_space : ℕ → Bool) (rs : List ℕ) → All drop rs → All drop (trim_right is_space rs)
unfolding trim_right All
All-trim_right drop is_space [] h = tt
All-trim_right drop is_space (r ∷ rs) h =
    All-push_trimmed drop is_space r (trim_right is_space rs) h.0
      (All-trim_right drop is_space rs h.1)

All-take : (drop : ℕ → Bool) (n : ℕ) (rs : List ℕ) → All drop rs → All drop (take n rs)
unfolding take All
All-take drop zero rs h = tt
All-take drop (suc n) [] h = tt
All-take drop (suc n) (r ∷ rs) h = (h.0, All-take drop n rs h.1)

length-take : (n : ℕ) (rs : List ℕ) → length (take n rs) ≤ n
unfolding take
length-take zero rs = omega arith
length-take (suc n) [] = omega arith
length-take (suc n) (r ∷ rs) = omega (arith, length-take n rs)

-- Whatever name a client gives: what is stored has at most 64 runes, and none of them is a control
-- character or stands for bytes that are no UTF-8.
pub sanitize_name-All :
    (is_control is_space : ℕ → Bool) (name : List ℕ)
    → (length (sanitize_name is_control is_space name) ≤ 64)
      × All (λ r. (r == rune_error) || is_control r) (sanitize_name is_control is_space name)
unfolding sanitize_name
sanitize_name-All is_control is_space name =
    let drop : ℕ → Bool = λ r. (r == rune_error) || is_control r in
    let trimmed = trim_right is_space (trim_left is_space (keep drop name)) in
    let clean : All drop trimmed =
      All-trim_right drop is_space (trim_left is_space (keep drop name))
        (All-trim_left drop is_space (keep drop name) (All-keep drop name)) in
    elim (Bool-cases (ltb max_name_len (length trimmed))) [
      | inl long ↦
          rw long (length-take max_name_len trimmed, All-take drop max_name_len trimmed clean)
      | inr short ↦ rw short (ground arith, clean)
    ]
