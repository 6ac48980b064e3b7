-- ===== src/Ulib/Copy.antt =====
-- user/ulib.c: `memmove` and `strcpy`.
use proj.Common.{
  ◌%◌, ◌^◌, leb, ℕ, zero, suc, ◌+◌, ◌-◌, ◌<◌, ◌≡◌, ◌≢◌, sym, ◌∙◌, false, ◌⊎◌, inl, inr, some, ltb,
  ◌==◌, if◌then◌else◌, arith, Bool-cases, fun_ext,
}
use proj.Kstring.{Bytes, store, move_up, move_down}
use proj.Kstring as Kstring
use proj.Kstring.Move.{inside, move_up-copy, move_down-copy, memmove_lem}
use proj.Ulib.{memmove, strcpy}

memmove-copy :
    (dst src n : ℕ) (m : Bytes) (a : ℕ)
    → n < 2 ^ 31
    → memmove dst src n m a ≡ (if inside dst n a then m (src + (a - dst)) else m a)
unfolding memmove
memmove-copy dst src n m a fits =
    let whole : n % 2 ^ 32 ≡ n = omega arith in
    let positive : leb (2 ^ 31) n ≡ false = ground arith in
    elim (Bool-cases (ltb dst src)) [
      | inl up ↦ rw (whole, positive, up) (move_up-copy dst src n m a (inl (ground arith)))
      | inr down ↦ rw (whole, positive, down) (move_down-copy dst src n m a (inl (ground arith)))
    ]

-- The user library's `memmove`, which always chooses its direction by the order of the addresses,
-- and the kernel's, which moves downwards only where the ranges overlap, have the same effect for
-- fewer than 2 ^ 31 bytes.
pub memmove-kernel :
    (dst src n : ℕ) (m : Bytes) → n < 2 ^ 31 → memmove dst src n m ≡ Kstring.memmove dst src n m
memmove-kernel dst src n m fits =
    fun_ext
      (λ a. memmove-copy dst src n m a fits ∙ sym (memmove_lem dst src n m a (omega (arith, fits))))

-- `strcpy`, with fuel for more than the `k` bytes of a string whose copy does not overlap it,
-- returns, and has copied the string with its NUL and changed no other byte.
pub strcpy-copy :
    (fuel s t k : ℕ) (m : Bytes)
    → m (t + k) ≡ 0
    → ((i : ℕ) → i < k → m (t + i) ≢ 0)
    → (s + k < t) ⊎ (t + k < s)
    → k < fuel
    → (m' : Bytes) × (strcpy fuel s t m ≡ some m')
      × ((a : ℕ) → m' a ≡ (if inside s (suc k) a then m (t + (a - s)) else m a))
unfolding strcpy
strcpy-copy zero s t k m z str apart l = absurd (omega arith)
strcpy-copy (suc fuel) s t zero m z str apart l = (store m s (m t), ground arith, λ a. ground arith)
strcpy-copy (suc fuel) s t (suc k) m z str apart l =
    let m₁ = store m s (m t) in
    let (m', run, copied) =
      strcpy-copy fuel (s + 1) (t + 1) k m₁ (ground arith) (λ i h e. ground (arith, str (suc i)))
        (ground arith) (omega arith) in
    let more : (m t == 0) ≡ false = ground (arith, str 0) in
    (m', rw more run, λ a. ground (arith, copied a))
