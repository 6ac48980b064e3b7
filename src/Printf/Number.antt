-- ===== src/Printf/Number.antt =====
-- user/printf.c: a number that is printed can be read again.
use proj.Common.{
  ◌≤◌, ℕ, zero, suc, ◌+◌, ◌*◌, ◌/◌, ◌%◌, ◌^◌, ◌<◌, ◌≡◌, refl, ap, ◌∙◌, true, false, Option, some,
  List, [], ◌∷◌, length, arith, ◌==◌, ltb, leb, Bool-cases, inl, inr,
}
use proj.Kstring.{Bytes, store}
use proj.Printf.{digits, printint_loop, printint}
use proj.Ulib.{atoi}
use proj.Ulib.Number.{value, Digits, atoi-value}

-- The bytes of decimal digits.
abbrev pub chars : List ℕ → List ℕ
chars [] = []
chars (d ∷ ds) = (48 + d) ∷ chars ds

abbrev pub AllDigits : List ℕ → Type 0
AllDigits [] = Unit
AllDigits (d ∷ ds) = (d < 10) × AllDigits ds

abbrev Printed : ℕ → ℕ → List ℕ → Option (List ℕ) → Type 0
Printed n x ds r =
    (es : List ℕ) × (r ≡ some (chars es))
    × AllDigits es
    × (value 0 es ≡ value x ds)
    × (length es ≤ n + length ds)

Printed-last :
    (n x : ℕ) (ds : List ℕ)
    → x < 10
    → AllDigits ds
    → Printed (suc n) x ds (some (digits (x % 10) ∷ chars ds))
Printed-last n x ds h a =
    let e : x % 10 ≡ x = omega (arith, h) in
    let small : ltb x 10 ≡ true = ground (arith, h) in
    (x ∷ ds, rw (e, small) refl, (h, a), ap (λ n. value n ds) (omega arith), omega arith)

-- The loop puts the digits of `x` before those that stand already.
printint_loop-value :
    (fuel x : ℕ) (ds : List ℕ)
    → x < 10 ^ suc fuel
    → AllDigits ds
    → Printed (suc fuel) x ds (printint_loop (suc fuel) 10 x (chars ds))
unfolding printint_loop
printint_loop-value zero x ds h a =
    let last : (x / 10 == 0) ≡ true = ground arith in
    rw last (Printed-last 0 x ds (omega (arith, h)) a)
printint_loop-value (suc fuel) x ds h a = elim (Bool-cases (x / 10 == 0)) [
  | inl last ↦ rw last (Printed-last (suc fuel) x ds (ground arith) a)
  | inr more ↦
      let small : ltb (x % 10) 10 ≡ true = ground arith in
      let power : 10 ^ suc (suc fuel) ≡ 10 * 10 ^ suc fuel = omega arith in
      let (es, e, a', v, len) =
        printint_loop-value fuel (x / 10) (x % 10 ∷ ds) (omega (arith, h, power))
          (omega arith, a) in
      rw (more, small) (es, e, a', v ∙ ap (λ n. value n ds) (omega arith), omega (arith, len))
]

-- Memory holds the bytes of the string from `s` on, and a NUL behind them.
abbrev pub Stored : ℕ → List ℕ → Bytes → Type 0
Stored s [] m = m s ≡ 0
Stored s (c ∷ cs) m = (m s ≡ c) × Stored (s + 1) cs m

length-chars : (ds : List ℕ) → length (chars ds) ≡ length ds
length-chars [] = refl
length-chars (d ∷ ds) = ap suc (length-chars ds)

Digits-Stored :
    (s : ℕ) (ds : List ℕ) (m : Bytes) → AllDigits ds → Stored s (chars ds) m → Digits s ds m
Digits-Stored s [] m a st = ground arith
Digits-Stored s (d ∷ ds) m a st = (a.0, st.0, Digits-Stored (s + 1) ds m a.1 st.1)

-- `printint` of an `int` that is not negative needs at most ten digits, and writes the decimal
-- digits of the number.
pub printint-value :
    (x : ℕ)
    → x < 2 ^ 31
    → (es : List ℕ) × (printint 10 x 10 true ≡ some (chars es))
      × AllDigits es
      × (value 0 es ≡ x)
      × (length es ≤ 10)
unfolding printint
printint-value x small =
    let positive : leb (2 ^ 31) x ≡ false = ground (arith, small) in
    let (es, e, a, v, len) = printint_loop-value 9 x [] (omega (arith, small)) tt in
    (es, rw (positive, e) refl, a, v, omega (arith, len))

-- The memory with the bytes of a string stored from `s` on, and a NUL behind them.
unfoldable pub store_string : ℕ → List ℕ → Bytes → Bytes
store_string s [] m = store m s 0
store_string s (c ∷ cs) m = store_string (s + 1) cs (store m s c)

store_string-before :
    (s : ℕ) (cs : List ℕ) (m : Bytes) (a : ℕ) → a < s → store_string s cs m a ≡ m a
unfolding store_string
store_string-before s [] m a h = ground arith
store_string-before s (c ∷ cs) m a h =
    store_string-before (s + 1) cs (store m s c) a (omega arith) ∙ ground arith

store_string-Stored : (s : ℕ) (cs : List ℕ) (m : Bytes) → Stored s cs (store_string s cs m)
unfolding store_string
store_string-Stored s [] m = ground arith
store_string-Stored s (c ∷ cs) m = (
  store_string-before (s + 1) cs (store m s c) s (omega arith) ∙ ground arith,
  store_string-Stored (s + 1) cs (store m s c),
)

-- Of an `int` that is not negative `printint`, whose loop takes at most ten turns, returns at most
-- ten characters, and where these are stored as a string, `atoi` reads them as that number.
pub atoi-printint :
    (x s : ℕ) (m : Bytes)
    → x < 2 ^ 31
    → (out : List ℕ) × (printint 10 x 10 true ≡ some out)
      × (length out ≤ 10)
      × (atoi 11 s (store_string s out m) ≡ some x)
atoi-printint x s m small =
    let (es, e, a, v, len) = printint-value x small in
    let m' = store_string s (chars es) m in
    let st = Digits-Stored s es m' a (store_string-Stored s (chars es) m) in
    (
      chars es,
      e,
      omega (arith, len, length-chars es),
      atoi-value 11 s es m' st (omega (arith, len))
          ∙ ap some (ap (λ n. n % 2 ^ 32) v ∙ omega (arith, small)),
    )
