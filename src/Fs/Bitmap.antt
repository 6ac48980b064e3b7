-- ===== src/Fs/Bitmap.antt =====
-- kernel/fs.c: the allocation of blocks.
use proj.Common.{
  ℕ, zero, suc, ◌+◌, ◌*◌, ◌/◌, ◌≤◌, ◌<◌, ◌≡◌, refl, sym, subst, Bool, true, false, Option, none,
  some, arith, ◌==◌, ltb, min, or_else, Bool-cases, inl, inr, ◌⊎◌,
}
use proj.Fs.{bpb, Disk, free_in, free_from, balloc_take, balloc, take_block}

-- What a search of the numbers from `b` on, below `e`, found.
abbrev pub Least : (ℕ → Bool) → ℕ → ℕ → Option ℕ → Type 0
Least used b e (some x) =
    (b ≤ x) × (x < e) × (used x ≡ false) × ((y : ℕ) → b ≤ y → y < x → used y ≡ true)
Least used b e none = (y : ℕ) → b ≤ y → y < e → used y ≡ true

Least-later :
    (used : ℕ → Bool) (b e e' : ℕ) (o : Option ℕ)
    → used b ≡ true
    → e ≡ e'
    → Least used (b + 1) e' o
    → Least used b e o
Least-later used b e e' (some x) taken h l = (
  omega (arith, l.0),
  omega (arith, l.1, h),
  l.2,
  λ y le lt. elim (Bool-cases (y == b)) [
    | inl eq ↦ ground arith
    | inr ne ↦ l.3 y (ground arith) lt
  ],
)
Least-later used b e e' none taken h l = λ y le lt. elim (Bool-cases (y == b)) [
  | inl eq ↦ ground arith
  | inr ne ↦ l y (ground arith) (omega arith)
]

free_in-Least :
    (used : ℕ → Bool) (size n b : ℕ) → Least used b (min size (b + n)) (free_in used size n b)
unfolding free_in
free_in-Least used size zero b = λ y h h'. absurd (ground arith)
free_in-Least used size (suc n) b = elim (Bool-cases (ltb b size)) [
  | inr out ↦ rw out (λ y h h'. absurd (ground arith))
  | inl lt ↦ elim (Bool-cases (used b)) [
    | inr free ↦ rw (lt, free) (ground arith, ground arith, free, λ y h h'. absurd (ground arith))
    | inl taken ↦
        rw (lt, taken)
          (Least-later used b (min size (b + suc n)) (min size (b + 1 + n))
            (free_in used size n (b + 1)) taken (ground arith) (free_in-Least used size n (b + 1)))
  ]
]

-- A search of two ranges, one after the other.
Least-or_else :
    (used : ℕ → Bool) (b m m' e : ℕ) (o o' : Option ℕ)
    → Least used b m o
    → Least used m' e o'
    → m ≤ e
    → b ≤ m'
    → ((y : ℕ) → y < e → (y < m) ⊎ (m' ≤ y))
    → Least used b e (or_else o o')
Least-or_else used b m m' e (some x) o' l l' le le' cover = (l.0, omega (arith, l.1), l.2, l.3)
Least-or_else used b m m' e none (some x) l l' le le' cover = (
  omega (arith, l'.0),
  l'.1,
  l'.2,
  λ y h h'. elim (cover y (omega (arith, l'.1))) [ inl lt ↦ l y h lt | inr ge ↦ l'.3 y ge h' ],
)
Least-or_else used b m m' e none none l l' le le' cover =
    λ y h h'. elim (cover y h') [ inl lt ↦ l y h lt | inr ge ↦ l' y ge h' ]

free_from-Least :
    (width : ℕ) (used : ℕ → Bool) (size n b : ℕ)
    → Least used b (min size (b + n * width)) (free_from width used size n b)
unfolding free_from
free_from-Least width used size zero b = λ y h h'. absurd (ground arith)
free_from-Least width used size (suc n) b = elim (Bool-cases (ltb b size)) [
  | inr out ↦ rw out (λ y h h'. absurd (ground arith))
  | inl lt ↦
      let e = min size (b + suc n * width) in
      let same : e ≡ min size (b + width + n * width) = ground arith in
      let rest = free_from-Least width used size n (b + width) in
      rw lt (
        Least-or_else used b (min size (b + width)) (b + width) e (free_in used size width b)
          (free_from width used size n (b + width)) (free_in-Least used size width b)
          (subst (λ z. Least used (b + width) z (free_from width used size n (b + width)))
            (sym same) rest)
          (ground arith) (omega arith)
          (λ y h. elim (Bool-cases (ltb y (b + width))) [
            | inl a ↦ inl (ground arith)
            | inr a ↦ inr (ground arith)
          ]))
]

-- `balloc` takes the least free block.
abbrev pub Took : Disk → ℕ × Disk → Type 0
Took d (b, d') =
    ((d' ≡ take_block b d)
      × (b < d.size)
      × (d.used b ≡ false)
      × ((y : ℕ) → y < b → d.used y ≡ true))
    ⊎ ((b ≡ 0) × (d' ≡ d) × ((y : ℕ) → y < d.size → d.used y ≡ true))

Took-take : (d : Disk) (o : Option ℕ) → Least d.used 0 d.size o → Took d (balloc_take o d)
Took-take d (some b) l = inl (refl, l.1, l.2, λ y h. l.3 y (omega arith) h)
Took-take d none l = inr (refl, refl, λ y h. l y (omega arith) h)

-- `balloc` marks and zeroes the block with the least number among the free ones below the size, or
-- returns 0, changes nothing, and all blocks below the size are in use.
pub balloc-Took : (d : Disk) → Took d (balloc d)
unfolding balloc
balloc-Took d = Took-take d (free_from bpb d.used d.size (d.size / bpb + 1) 0) (
    subst (λ z. Least d.used 0 z (free_from bpb d.used d.size (d.size / bpb + 1) 0)) (ground arith)
      (free_from-Least bpb d.used d.size (d.size / bpb + 1) 0))
