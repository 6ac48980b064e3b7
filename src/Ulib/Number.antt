-- ===== src/Ulib/Number.antt =====
-- user/ulib.c: `atoi`.
use proj.Common.{
  ℕ, zero, suc, ◌+◌, ◌-◌, ◌*◌, ◌%◌, ◌^◌, ◌<◌, ◌≡◌, ap, ◌∙◌, true, false, ◌&&◌, some, List, [], ◌∷◌,
  length, leb, arith,
}
use proj.Kstring.{Bytes}
use proj.Ulib.{atoi, atoi_loop}

-- The number that decimal digits denote, the first the most significant.
abbrev pub value : ℕ → List ℕ → ℕ
value n [] = n
value n (d ∷ ds) = value (n * 10 + d) ds

-- Memory holds the digits from `s` on, and no digit behind them.
abbrev pub Digits : ℕ → List ℕ → Bytes → Type 0
Digits s [] m = (leb 48 (m s) && leb (m s) 57) ≡ false
Digits s (d ∷ ds) m = (d < 10) × (m s ≡ 48 + d) × Digits (s + 1) ds m

value-mod :
    (n n' : ℕ) (ds : List ℕ) → n % 2 ^ 32 ≡ n' % 2 ^ 32 → value n ds % 2 ^ 32 ≡ value n' ds % 2 ^ 32
value-mod n n' [] e = e
value-mod n n' (d ∷ ds) e = value-mod (n * 10 + d) (n' * 10 + d) ds (omega arith)

atoi_loop-value :
    (fuel s n : ℕ) (ds : List ℕ) (m : Bytes)
    → Digits s ds m
    → length ds < fuel
    → n < 2 ^ 32
    → atoi_loop fuel s n m ≡ some (value n ds % 2 ^ 32)
unfolding atoi_loop
atoi_loop-value zero s n ds m h l w = absurd (omega arith)
atoi_loop-value (suc fuel) s n [] m h l w = ground arith
atoi_loop-value (suc fuel) s n (d ∷ ds) m (lt, e, h) l w =
    let digit : (leb 48 (m s) && leb (m s) 57) ≡ true = ground arith in
    let next = (n * 10 + m s + 2 ^ 32 - 48) % 2 ^ 32 in
    rw digit (
      atoi_loop-value fuel (s + 1) next ds m h (omega arith) (omega arith)
      ∙ ap some (value-mod next (n * 10 + d) ds (omega arith)))

-- `atoi` of a string that begins with decimal digits, and no digit behind them, returns the number
-- that they denote, modulo 2 ^ 32, when the fuel is more than their number.
pub atoi-value :
    (fuel s : ℕ) (ds : List ℕ) (m : Bytes)
    → Digits s ds m
    → length ds < fuel
    → atoi fuel s m ≡ some (value 0 ds % 2 ^ 32)
unfolding atoi
atoi-value fuel s ds m h l = atoi_loop-value fuel s 0 ds m h l (omega arith)
