-- ===== src/Kstring.antt =====
-- kernel/string.c over a memory of bytes. An address is a number, and no object reaches the end of
-- the address space. A loop that counts down `n` recurs on it; `strlen` takes fuel, `none` when it
-- runs out.
pub mod Move
pub mod Compare
pub mod Copy
use proj.Common.{
  ◌^◌, ℕ, zero, suc, ◌+◌, ◌-◌, ◌%◌, Bool, true, false, not, ◌&&◌, ◌||◌, Option, none, some, ltb,
  leb, ◌==◌, if◌then◌else◌, ℤ, pos, sub_ℕ,
}

abbrev pub Bytes : Type 0
Bytes = ℕ → ℕ

abbrev pub store : Bytes → ℕ → ℕ → Bytes
store m p v a = if a == p then v else m a

-- The loop of `memset` from index `i` on, with `n` rounds left.
unfoldable pub memset_loop : ℕ → ℕ → ℕ → ℕ → Bytes → Bytes
memset_loop dst c zero i m = m
memset_loop dst c (suc n) i m = memset_loop dst c n (i + 1) (store m (dst + i) (c % 256))

unfoldable pub memset : ℕ → ℕ → ℕ → Bytes → Bytes
unfolding memset_loop
memset dst c n m = memset_loop dst c n 0 m

unfoldable pub memcmp : ℕ → ℕ → ℕ → Bytes → ℤ
memcmp s1 s2 zero m = pos 0
memcmp s1 s2 (suc n) m =
    if not (m s1 == m s2) then sub_ℕ (m s1) (m s2) else memcmp (s1 + 1) (s2 + 1) n m

-- `*--d = *--s`, with `d` and `s` at the ends of what is left.
unfoldable pub move_down : ℕ → ℕ → ℕ → Bytes → Bytes
move_down d s zero m = m
move_down d s (suc n) m = move_down d s n (store m (d + n) (m (s + n)))

-- `*d++ = *s++`
unfoldable pub move_up : ℕ → ℕ → ℕ → Bytes → Bytes
move_up d s zero m = m
move_up d s (suc n) m = move_up (d + 1) (s + 1) n (store m d (m s))

-- `n` is a uint.
unfoldable pub memmove : ℕ → ℕ → ℕ → Bytes → Bytes
unfolding move_down move_up
memmove dst src n m =
    let k = n % 2 ^ 32 in
    if k == 0
    then m
    else if ltb src dst && ltb dst (src + k)
    then move_down dst src k m
    else move_up dst src k m

unfoldable pub memcpy : ℕ → ℕ → ℕ → Bytes → Bytes
unfolding memmove
memcpy dst src n m = memmove dst src n m

unfoldable pub strncmp : ℕ → ℕ → ℕ → Bytes → ℤ
strncmp p q zero m = pos 0
strncmp p q (suc n) m =
    if not (m p == 0) && (m p == m q) then strncmp (p + 1) (q + 1) n m else sub_ℕ (m p) (m q)

-- The second loop of `strncpy`.
unfoldable pub pad : ℕ → ℕ → Bytes → Bytes
pad s zero m = m
pad s (suc n) m = pad (s + 1) n (store m s 0)

-- Its first loop: it stops after the NUL.
unfoldable pub strncpy : ℕ → ℕ → ℕ → Bytes → Bytes
unfolding pad
strncpy s t zero m = m
strncpy s t (suc n) m =
    let m' = store m s (m t) in
    let rest = strncpy (s + 1) (t + 1) n m' in if m t == 0 then pad (s + 1) n m' else rest

-- The loop of `safestrcpy` with `n` bytes of room before the last, and the final NUL.
unfoldable pub safestrcpy_loop : ℕ → ℕ → ℕ → Bytes → Bytes
safestrcpy_loop s t zero m = store m s 0
safestrcpy_loop s t (suc n) m =
    let m' = store m s (m t) in
    let rest = safestrcpy_loop (s + 1) (t + 1) n m' in if m t == 0 then store m' (s + 1) 0 else rest

unfoldable pub safestrcpy : ℕ → ℕ → ℕ → Bytes → Bytes
unfolding safestrcpy_loop
safestrcpy s t zero m = m
safestrcpy s t (suc n) m = safestrcpy_loop s t n m

-- `for(n = 0; s[n]; n++)` from `n` on.
unfoldable pub strlen_loop : ℕ → ℕ → ℕ → Bytes → Option ℕ
strlen_loop zero s n m = none
strlen_loop (suc fuel) s n m =
    let rest = strlen_loop fuel s (n + 1) m in if m (s + n) == 0 then some n else rest

unfoldable pub strlen : ℕ → ℕ → Bytes → Option ℕ
unfolding strlen_loop
strlen fuel s m = strlen_loop fuel s 0 m
