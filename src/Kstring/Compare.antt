-- ===== src/Kstring/Compare.antt =====
-- kernel/string.c: `memcmp` and `strlen`.
use proj.Common.{ℕ, zero, suc, ◌+◌, ◌<◌, ◌≡◌, ◌≢◌, ◌↔◌, refl, some, arith, pos, sub_ℕ}
use proj.Kstring.{Bytes, memcmp, strlen_loop, strlen}

sub_ℕ-eq : (a b : ℕ) → a ≢ b → sub_ℕ a b ≢ pos 0
sub_ℕ-eq a b h e = grind arith

memcmp-equal :
    (s1 s2 n : ℕ) (m : Bytes)
    → ((i : ℕ) → i < n → m (s1 + i) ≡ m (s2 + i))
    → memcmp s1 s2 n m ≡ pos 0
unfolding memcmp
memcmp-equal s1 s2 zero m h = refl
memcmp-equal s1 s2 (suc n) m h =
    let first : m s1 ≡ m s2 = ground (arith, h 0) in
    let rest = memcmp-equal (s1 + 1) (s2 + 1) n m (λ i l. ground (arith, h (suc i))) in
    ground (arith, first, rest)

memcmp-same :
    (s1 s2 n : ℕ) (m : Bytes) (i : ℕ) → memcmp s1 s2 n m ≡ pos 0 → i < n → m (s1 + i) ≡ m (s2 + i)
unfolding memcmp
memcmp-same s1 s2 zero m i e h = absurd (omega arith)
memcmp-same s1 s2 (suc n) m zero e h = ground (arith, sub_ℕ-eq (m s1) (m s2))
memcmp-same s1 s2 (suc n) m (suc i) e h =
    let rest = memcmp-same (s1 + 1) (s2 + 1) n m i in ground (arith, sub_ℕ-eq (m s1) (m s2), rest)

strlen_loop-first :
    (fuel s n k : ℕ) (m : Bytes)
    → m (s + (n + k)) ≡ 0
    → ((i : ℕ) → i < k → m (s + (n + i)) ≢ 0)
    → k < fuel
    → strlen_loop fuel s n m ≡ some (n + k)
unfolding strlen_loop
strlen_loop-first zero s n k m z h l = absurd (omega arith)
strlen_loop-first (suc fuel) s n zero m z h l = ground arith
strlen_loop-first (suc fuel) s n (suc k) m z h l =
    let first : m (s + n) ≢ 0 = λ e. ground (arith, h 0) in
    let rest =
      strlen_loop-first fuel s (n + 1) k m (ground arith) (λ i b e. ground (arith, h (suc i)))
        (omega arith) in
    ground (arith, first, rest)

-- `memcmp` returns 0 exactly when the two ranges of `n` bytes hold the same bytes.
pub memcmp-eq-zero_iff :
    (s1 s2 n : ℕ) (m : Bytes)
    → memcmp s1 s2 n m ≡ pos 0 ↔ ((i : ℕ) → i < n → m (s1 + i) ≡ m (s2 + i))
memcmp-eq-zero_iff s1 s2 n m = (λ e i h. memcmp-same s1 s2 n m i e h, memcmp-equal s1 s2 n m)

-- `strlen` returns the index of the first NUL of the string, when the fuel is more than that index.
pub strlen_lem :
    (fuel s k : ℕ) (m : Bytes)
    → m (s + k) ≡ 0
    → ((i : ℕ) → i < k → m (s + i) ≢ 0)
    → k < fuel
    → strlen fuel s m ≡ some k
unfolding strlen
strlen_lem fuel s k m z h l =
    ground (arith, strlen_loop-first fuel s 0 k m (ground arith) (λ i b e. ground (arith, h i)) l)
