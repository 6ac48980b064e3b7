-- ===== src/Kstring/Move.antt =====
-- kernel/string.c: `memset` and `memmove`.
use proj.Common.{
  ◌<◌, ◌^◌, ℕ, zero, suc, ◌+◌, ◌-◌, ◌%◌, ◌≤◌, ◌≡◌, Bool, ◌&&◌, ◌⊎◌, inl, inr, ltb, leb, ◌==◌,
  if◌then◌else◌, arith, Bool-cases,
}
use proj.Kstring.{Bytes, store, memset_loop, memset, move_down, move_up, memmove}

abbrev pub inside : ℕ → ℕ → ℕ → Bool
inside d n a = leb d a && ltb a (d + n)

memset_loop-fill :
    (dst c n i : ℕ) (m : Bytes) (a : ℕ)
    → memset_loop dst c n i m a ≡ (if inside (dst + i) n a then c % 256 else m a)
unfolding memset_loop
memset_loop-fill dst c zero i m a = ground arith
memset_loop-fill dst c (suc n) i m a =
    ground (arith, memset_loop-fill dst c n (i + 1) (store m (dst + i) (c % 256)) a)

-- `memset` sets the `n` bytes from `dst` on to the low byte of `c`, and no other.
pub memset_lem :
    (dst c n : ℕ) (m : Bytes) (a : ℕ)
    → memset dst c n m a ≡ (if inside dst n a then c % 256 else m a)
unfolding memset
memset_lem dst c n m a = ground (arith, memset_loop-fill dst c n 0 m a)

-- Downwards it is safe to move to a higher address.
pub move_down-copy :
    (d s n : ℕ) (m : Bytes) (a : ℕ)
    → (s ≤ d) ⊎ (d + n ≤ s)
    → move_down d s n m a ≡ (if inside d n a then m (s + (a - d)) else m a)
unfolding move_down
move_down-copy d s zero m a h = ground arith
move_down-copy d s (suc n) m a h =
    ground (arith, move_down-copy d s n (store m (d + n) (m (s + n))) a)

pub move_up-copy :
    (d s n : ℕ) (m : Bytes) (a : ℕ)
    → (d ≤ s) ⊎ (s + n ≤ d)
    → move_up d s n m a ≡ (if inside d n a then m (s + (a - d)) else m a)
unfolding move_up
move_up-copy d s zero m a h = ground arith
move_up-copy d s (suc n) m a h = ground (arith, move_up-copy (d + 1) (s + 1) n (store m d (m s)) a)

-- `memmove` copies the `n` bytes from `src` on, as they were, to `dst`, and changes no other byte,
-- also where the two ranges overlap; `n` is a uint.
pub memmove_lem :
    (dst src n : ℕ) (m : Bytes) (a : ℕ)
    → n < 2 ^ 32
    → memmove dst src n m a ≡ (if inside dst n a then m (src + (a - dst)) else m a)
unfolding memmove
memmove_lem dst src n m a fits =
    let whole : n % 2 ^ 32 ≡ n = omega arith in
    elim (Bool-cases (n == 0)) [
      | inl none_left ↦ rw (whole, none_left) (ground arith)
      | inr some_left ↦ elim (Bool-cases (ltb src dst && ltb dst (src + n))) [
        | inl over ↦ rw (whole, some_left, over) (move_down-copy dst src n m a (inl (ground arith)))
        | inr apart ↦ rw (whole, some_left, apart) (move_up-copy dst src n m a (ground arith))
      ]
    ]
