-- ===== src/Fs/Freed.antt =====
-- kernel/fs.c: the loops of `itrunc` over addresses.
use proj.Common.{
  ℕ, zero, suc, ◌+◌, ◌≤◌, ◌<◌, ◌≡◌, ◌≢◌, refl, sym, ◌∙◌, Bool, true, false, ok, arith, ◌==◌,
  if◌then◌else◌, put_at, put_at-same, Bool-cases, inl, inr,
}
use proj.Fs.{Disk, Inode, set_addr, bfree, free_word, free_addr, trunc_words, trunc_direct}

abbrev pub without : ℕ → (ℕ → Bool) → ℕ → Bool
without b u = if b == 0 then u else put_at u b false

-- The bitmap without the blocks at `n` places from `j` on.
unfoldable pub freed : (ℕ → ℕ) → ℕ → ℕ → (ℕ → Bool) → ℕ → Bool
freed a zero j u = u
freed a (suc n) j u = freed a n (j + 1) (without (a j) u)

-- The addresses with `n` places from `i` on made 0.
unfoldable pub cleared : ℕ → ℕ → (ℕ → ℕ) → ℕ → ℕ
cleared zero i f = f
cleared (suc n) i f = cleared n (i + 1) (put_at f i 0)

abbrev pub used_at : Disk → (ℕ → Bool) → Disk
used_at d u = record d { used = u }

-- The places from `j` to `e` have blocks in use, none twice.
pub record Live (a : ℕ → ℕ) (j e : ℕ) (u : ℕ → Bool) : Type 0 where
  pub in_use : (k : ℕ) → j ≤ k → k < e → u (a k) ≡ true
  pub distinct : (k l : ℕ) → j ≤ k → k < e → j ≤ l → l < e → a k ≢ 0 → a k ≡ a l → k ≡ l

Live-next :
    (a : ℕ → ℕ) (n j : ℕ) (u : ℕ → Bool)
    → Live a j (j + suc n) u
    → Live a (j + 1) (j + 1 + n) (without (a j) u)
Live-next a n j u l = record {
  in_use = λ k h h'. ground (
    arith,
    l.in_use k (omega arith) (omega arith),
    l.distinct j k (omega arith) (omega arith) (omega arith) (omega arith),
  );
  distinct =
      λ k m h h' g g'. l.distinct k m (omega arith) (omega arith) (omega arith) (omega arith);
}

free_word-ok :
    (b : ℕ) (d : Disk) → d.used b ≡ true → free_word b d ≡ ok (used_at d (without b d.used))
unfolding free_word bfree
free_word-ok b d h = elim (Bool-cases (b == 0)) [ inl z ↦ rw z refl | inr z ↦ rw (z, h) refl ]

pub trunc_words-ok :
    (a : ℕ → ℕ) (n j : ℕ) (d : Disk)
    → Live a j (j + n) d.used
    → trunc_words a n j d ≡ ok (used_at d (freed a n j d.used))
unfolding trunc_words freed
trunc_words-ok a zero j d l = refl
trunc_words-ok a (suc n) j d l =
    rw (free_word-ok (a j) d (l.in_use j (omega arith) (omega arith)))
      (trunc_words-ok a n (j + 1) (used_at d (without (a j) d.used)) (Live-next a n j d.used l))

pub freed-false :
    (a : ℕ → ℕ) (n j : ℕ) (u : ℕ → Bool) (x : ℕ) → u x ≡ false → freed a n j u x ≡ false
unfolding freed
freed-false a zero j u x h = h
freed-false a (suc n) j u x h = freed-false a n (j + 1) (without (a j) u) x (ground arith)

pub freed-hit :
    (a : ℕ → ℕ) (n j : ℕ) (u : ℕ → Bool) (k : ℕ)
    → j ≤ k
    → k < j + n
    → a k ≢ 0
    → freed a n j u (a k) ≡ false
unfolding freed
freed-hit a zero j u k h h' nz = absurd (omega arith)
freed-hit a (suc n) j u k h h' nz = elim (Bool-cases (k == j)) [
  | inl here ↦ freed-false a n (j + 1) (without (a j) u) (a k) (ground arith)
  | inr there ↦ freed-hit a n (j + 1) (without (a j) u) k (ground arith) (omega arith) nz
]

pub freed-miss :
    (a : ℕ → ℕ) (n j : ℕ) (u : ℕ → Bool) (x : ℕ)
    → ((k : ℕ) → j ≤ k → k < j + n → a k ≢ 0 → a k ≢ x)
    → freed a n j u x ≡ u x
unfolding freed
freed-miss a zero j u x h = refl
freed-miss a (suc n) j u x h =
    freed-miss a n (j + 1) (without (a j) u) x (λ k g g'. h k (omega arith) (omega arith))
    ∙ ground (arith, h j)

cleared-zero : (n i : ℕ) (f : ℕ → ℕ) (k : ℕ) → f k ≡ 0 → cleared n i f k ≡ 0
unfolding cleared
cleared-zero zero i f k z = z
cleared-zero (suc n) i f k z = cleared-zero n (i + 1) (put_at f i 0) k (ground arith)

pub cleared-in : (n i : ℕ) (f : ℕ → ℕ) (k : ℕ) → i ≤ k → k < i + n → cleared n i f k ≡ 0
unfolding cleared
cleared-in zero i f k h h' = absurd (omega arith)
cleared-in (suc n) i f k h h' = elim (Bool-cases (k == i)) [
  | inl here ↦ cleared-zero n (i + 1) (put_at f i 0) k (ground arith)
  | inr there ↦ cleared-in n (i + 1) (put_at f i 0) k (ground arith) (omega arith)
]

pub cleared-out : (n i : ℕ) (f : ℕ → ℕ) (k : ℕ) → i + n ≤ k → cleared n i f k ≡ f k
unfolding cleared
cleared-out zero i f k h = refl
cleared-out (suc n) i f k h = cleared-out n (i + 1) (put_at f i 0) k (omega arith) ∙ ground arith

freed-put :
    (f : ℕ → ℕ) (i n j : ℕ) (u : ℕ → Bool) → i < j → freed (put_at f i 0) n j u ≡ freed f n j u
unfolding freed
freed-put f i zero j u lt = refl
freed-put f i (suc n) j u lt =
    let off : (j == i) ≡ false = ground arith in
    rw off (freed-put f i n (j + 1) (without (f j) u) (omega arith))

Live-put :
    (f : ℕ → ℕ) (i e : ℕ) (u : ℕ → Bool) → Live f (i + 1) e u → Live (put_at f i 0) (i + 1) e u
Live-put f i e u l = record {
  in_use = λ k h h'. ground (arith, l.in_use k h h');
  distinct = λ k m h h' g g' nz same. l.distinct k m h h' g g' (λ z. ground arith) (ground arith);
}

free_addr-ok :
    (i : ℕ) (ip : Inode) (d : Disk)
    → d.used (ip.addrs i) ≡ true
    → free_addr i (ip, d) ≡ ok (set_addr i 0 ip, used_at d (without (ip.addrs i) d.used))
unfolding free_addr bfree
free_addr-ok i ip d h = elim (Bool-cases (ip.addrs i == 0)) [
  | inl z ↦ rw (z, put_at-same ip.addrs i 0 (ground arith)) refl
  | inr z ↦ rw (z, h) refl
]

pub trunc_direct-ok :
    (n i : ℕ) (ip : Inode) (d : Disk)
    → Live ip.addrs i (i + n) d.used
    → trunc_direct n i (ip, d)
      ≡ ok (record ip { addrs = cleared n i ip.addrs }, used_at d (freed ip.addrs n i d.used))
unfolding trunc_direct freed cleared
trunc_direct-ok zero i ip d l = refl
trunc_direct-ok (suc n) i ip d l =
    let u = without (ip.addrs i) d.used in
    rw
      (
        free_addr-ok i ip d (l.in_use i (omega arith) (omega arith)),
        sym (freed-put ip.addrs i n (i + 1) u (omega arith)),
      )
      (trunc_direct-ok n (i + 1) (set_addr i 0 ip) (used_at d u)
        (Live-put ip.addrs i (i + 1 + n) u (Live-next ip.addrs n i d.used l)))
