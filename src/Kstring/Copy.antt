-- ===== src/Kstring/Copy.antt =====
-- kernel/string.c: `strncpy` and `safestrcpy`.
use proj.Common.{ℕ, zero, suc, ◌+◌, ◌≤◌, ◌<◌, ◌≡◌, ◌≢◌, ◌⊎◌, ◌==◌, if◌then◌else◌, arith}
use proj.Kstring.{Bytes, store, safestrcpy_loop, safestrcpy}

safestrcpy_loop-below : (s t n : ℕ) (m : Bytes) (a : ℕ) → a < s → safestrcpy_loop s t n m a ≡ m a
unfolding safestrcpy_loop
safestrcpy_loop-below s t zero m a h = ground arith
safestrcpy_loop-below s t (suc n) m a h =
    ground (arith, safestrcpy_loop-below (s + 1) (t + 1) n (store m s (m t)) a (omega arith))

safestrcpy_loop-above :
    (s t n : ℕ) (m : Bytes) (a : ℕ) → s + n < a → safestrcpy_loop s t n m a ≡ m a
unfolding safestrcpy_loop
safestrcpy_loop-above s t zero m a h = ground arith
safestrcpy_loop-above s t (suc n) m a h =
    ground (arith, safestrcpy_loop-above (s + 1) (t + 1) n (store m s (m t)) a (omega arith))

safestrcpy_loop-copy :
    (s t n k : ℕ) (m : Bytes) (i : ℕ)
    → m (t + k) ≡ 0
    → ((j : ℕ) → j < k → m (t + j) ≢ 0)
    → (s + n < t) ⊎ (t + k < s)
    → i ≤ n
    → i ≤ k
    → safestrcpy_loop s t n m (s + i) ≡ (if i == n then 0 else m (t + i))
unfolding safestrcpy_loop
safestrcpy_loop-copy s t zero k m i z str apart a b = ground arith
safestrcpy_loop-copy s t (suc n) zero m i z str apart a b = ground arith
safestrcpy_loop-copy s t (suc n) (suc k) m zero z str apart a b =
    let below = safestrcpy_loop-below (s + 1) (t + 1) n (store m s (m t)) s (omega arith) in
    ground (arith, str 0, below)
safestrcpy_loop-copy s t (suc n) (suc k) m (suc i) z str apart a b =
    let rest : safestrcpy_loop (s + 1) (t + 1) n (store m s (m t)) (s + 1 + i)
        ≡ (if i == n then 0 else store m s (m t) (t + 1 + i)) =
      safestrcpy_loop-copy (s + 1) (t + 1) n k (store m s (m t)) i (ground arith)
        (λ j l e. ground (arith, str (suc j))) (ground arith) (omega arith) (omega arith) in
    ground (arith, str 0, rest)

-- `safestrcpy` into room for `n` + 1 bytes, of a string of `k` bytes and a NUL that does not
-- overlap the room: byte `i` of the copy, for `i` up to `k` and `n`, is the string's, but byte `n`
-- is a NUL; and no byte outside the room changes.
pub safestrcpy-copy :
    (s t n k : ℕ) (m : Bytes)
    → m (t + k) ≡ 0
    → ((j : ℕ) → j < k → m (t + j) ≢ 0)
    → (s + n < t) ⊎ (t + k < s)
    → ((i : ℕ)
        → i ≤ n
        → i ≤ k
        → safestrcpy s t (suc n) m (s + i) ≡ (if i == n then 0 else m (t + i)))
      × ((a : ℕ) → (a < s) ⊎ (s + n < a) → safestrcpy s t (suc n) m a ≡ m a)
unfolding safestrcpy
safestrcpy-copy s t n k m z str apart = (
  λ i a b. safestrcpy_loop-copy s t n k m i z str apart a b,
  λ a out. ground (arith, safestrcpy_loop-below s t n m a, safestrcpy_loop-above s t n m a),
)
