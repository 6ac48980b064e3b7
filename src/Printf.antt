-- ===== src/Printf.antt =====
-- user/printf.c: what `vprintf` writes, as a list of bytes. `x` as an `int` is a 32-bit word.
pub mod Number
use proj.Common.{
  ℕ, zero, suc, ◌+◌, ◌-◌, ◌*◌, ◌/◌, ◌%◌, ◌^◌, Bool, true, false, not, ◌&&◌, Option, none, some,
  List, [], ◌∷◌, ◌++◌, get_or, ◌==◌, ltb, leb, if◌then◌else◌,
}

-- `digits[d]`, "0123456789ABCDEF".
abbrev pub digits : ℕ → ℕ
digits d = if ltb d 10 then 48 + d else 55 + d

-- The loop of `printint`, and its output: the digits in `buf` are written from the last to the
-- first. On fuel, which is `none` when it runs out.
unfoldable pub printint_loop : ℕ → ℕ → ℕ → List ℕ → Option (List ℕ)
printint_loop zero base x out = none
printint_loop (suc fuel) base x out =
    let out' = digits (x % base) ∷ out in
    let rest = printint_loop fuel base (x / base) out' in if x / base == 0 then some out' else rest

abbrev pub with_sign : Bool → Option (List ℕ) → Option (List ℕ)
with_sign neg none = none
with_sign neg (some out) = some (if neg then 45 ∷ out else out)

-- `sgn && xx < 0`, and then `x = -xx`.
unfoldable pub printint : ℕ → ℕ → ℕ → Bool → Option (List ℕ)
unfolding printint_loop
printint fuel xx base sgn =
    let neg = sgn && leb (2 ^ 31) xx in
    let x = if neg then (2 ^ 32 - xx) % 2 ^ 32 else xx in
    with_sign neg (printint_loop fuel base x [])

-- The loop of `printptr` over `n` digits: `digits[x >> 60]`, then `x <<= 4`.
unfoldable pub printptr_loop : ℕ → ℕ → List ℕ
printptr_loop zero x = []
printptr_loop (suc n) x = digits (x / 2 ^ 60) ∷ printptr_loop n ((x * 2 ^ 4) % 2 ^ 64)

unfoldable pub printptr : ℕ → List ℕ
unfolding printptr_loop
printptr x = 48 ∷ (120 ∷ printptr_loop 16 x)
