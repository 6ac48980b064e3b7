-- ===== src/Ulib.antt =====
-- user/ulib.c: the string routines of user programs, over a memory of bytes as in Kstring. `char`
-- is unsigned on this machine. A loop that ends only at a NUL or at another byte takes fuel, `none`
-- when it runs out.
pub mod Copy
pub mod Number
pub mod Input
use proj.Common.{
  ℕ, zero, suc, ◌+◌, ◌-◌, ◌*◌, ◌%◌, ◌^◌, Bool, true, false, not, ◌&&◌, ◌||◌, Option, none, some,
  List, [], ◌∷◌, ltb, leb, ◌==◌, if◌then◌else◌, ℤ, pos, sub_ℕ,
}
use proj.Kstring.{Bytes, store, move_up, move_down, memset_loop}

unfoldable pub strcpy : ℕ → ℕ → ℕ → Bytes → Option Bytes
strcpy zero s t m = none
strcpy (suc fuel) s t m =
    let m' = store m s (m t) in
    let rest = strcpy fuel (s + 1) (t + 1) m' in if m t == 0 then some m' else rest

unfoldable pub strcmp : ℕ → ℕ → ℕ → Bytes → Option ℤ
strcmp zero p q m = none
strcmp (suc fuel) p q m =
    let rest = strcmp fuel (p + 1) (q + 1) m in
    if not (m p == 0) && (m p == m q) then rest else some (sub_ℕ (m p) (m q))

unfoldable pub strlen_from : ℕ → ℕ → ℕ → Bytes → Option ℕ
strlen_from zero s n m = none
strlen_from (suc fuel) s n m =
    let rest = strlen_from fuel s (n + 1) m in if not (m (s + n) == 0) then rest else some n

unfoldable pub strlen : ℕ → ℕ → Bytes → Option ℕ
unfolding strlen_from
strlen fuel s m = strlen_from fuel s 0 m

unfoldable pub memset : ℕ → ℕ → ℕ → Bytes → Bytes
unfolding memset_loop
memset dst c n m = memset_loop dst c n 0 m

-- The address of the byte, 0 if the string has none.
unfoldable pub strchr : ℕ → ℕ → ℕ → Bytes → Option ℕ
strchr zero s c m = none
strchr (suc fuel) s c m =
    let rest = strchr fuel (s + 1) c m in
    if m s == 0 then some 0 else if m s == c then some s else rest

-- The loop of `gets`; `input` is what the calls of `read` give, one byte each, up to the end or an
-- error. The result is the index of the NUL, what is left of the input, and the memory.
unfoldable pub gets_loop : ℕ → ℕ → ℕ → List ℕ → Bytes → ℕ × List ℕ × Bytes
gets_loop buf max i [] m = (i, [], m)
gets_loop buf max i (c ∷ cs) m =
    let m' = store m (buf + i) c in
    let rest = gets_loop buf max (i + 1) cs m' in
    if ltb (i + 1) max
    then (if (c == 10) || (c == 13) then (i + 1, cs, m') else rest)
    else (i, c ∷ cs, m)

unfoldable pub gets : ℕ → ℕ → List ℕ → Bytes → List ℕ × Bytes
unfolding gets_loop
gets buf max input m =
    let (i, left, m') = gets_loop buf max 0 input m in (left, store m' (buf + i) 0)

-- The loop of `atoi`; `n` is the bit pattern of an int.
unfoldable pub atoi_loop : ℕ → ℕ → ℕ → Bytes → Option ℕ
atoi_loop zero s n m = none
atoi_loop (suc fuel) s n m =
    let rest = atoi_loop fuel (s + 1) ((n * 10 + m s + 2 ^ 32 - 48) % 2 ^ 32) m in
    if leb 48 (m s) && leb (m s) 57 then rest else some n

unfoldable pub atoi : ℕ → ℕ → Bytes → Option ℕ
unfolding atoi_loop
atoi fuel s m = atoi_loop fuel s 0 m

-- Upwards from a higher address, downwards from a lower one.
-- `n` is the bit pattern of an int: of a negative number of bytes none is copied.
unfoldable pub memmove : ℕ → ℕ → ℕ → Bytes → Bytes
unfolding move_up move_down
memmove vdst vsrc n m =
    let k = n % 2 ^ 32 in
    if leb (2 ^ 31) k
    then m
    else if ltb vdst vsrc
    then move_up vdst vsrc k m
    else move_down vdst vsrc k m

unfoldable pub memcmp : ℕ → ℕ → ℕ → Bytes → ℤ
memcmp s1 s2 zero m = pos 0
memcmp s1 s2 (suc n) m =
    if not (m s1 == m s2) then sub_ℕ (m s1) (m s2) else memcmp (s1 + 1) (s2 + 1) n m

unfoldable pub memcpy : ℕ → ℕ → ℕ → Bytes → Bytes
unfolding memmove
memcpy dst src n m = memmove dst src n m
