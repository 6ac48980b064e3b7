-- ===== src/Kalloc/Lists.antt =====
-- kernel/kalloc.c: what it means that the allocator holds a list of free pages.
use proj.Common.{
  ℕ, ◌+◌, ◌%◌, ◌≤◌, ◌<◌, ◌≡◌, ◌≢◌, List, [], ◌∷◌, All, count, false, arith, ltb, leb, ◌&&◌,
}
use proj.Spinlock.Nesting.{IsMasked}
use proj.Memory.{Mem, pgsize, phystop}
use proj.Kalloc.{Machine}

-- What `kfree` accepts.
pub record IsPage (end_ pa : ℕ) : Type 0 where
  pub aligned : pa % pgsize ≡ 0
  pub above : end_ ≤ pa
  pub below : pa < phystop

-- The list that starts at `p` and goes on by the first word of each page.
abbrev pub Chain : Mem → ℕ → List ℕ → Type 0
Chain m p [] = p ≡ 0
Chain m p (x ∷ xs) = (p ≡ x) × Chain m (m x) xs

-- The allocator is at rest with the free pages `xs`, the first to be given out first.
pub record Holds (end_ : ℕ) (m : Machine) (xs : List ℕ) : Type 0 where
  -- The kernel does not start at 0, so that 0 can stand for no page.
  pub kernel : 0 < end_
  pub unlocked : m.lock.locked ≡ false
  pub masked : IsMasked m.cpu
  pub chain : Chain m.mem m.freelist xs
  pub pages : All (IsPage end_) xs
  pub distinct : (a : ℕ) → count a xs ≤ 1

-- `b` lies outside the page at `pa`.
abbrev pub Outside : ℕ → ℕ → Type 0
Outside pa b = (leb pa b && ltb b (pa + pgsize)) ≡ false

pub pages_apart : {end_ x y : ℕ} → IsPage end_ x → IsPage end_ y → x ≢ y → Outside x y
pages_apart p q ne = ground arith

-- A chain survives what is written to a page that is not on it.
pub Chain-frame :
    {end_ x : ℕ} (m m' : Mem) (p : ℕ) (xs : List ℕ)
    → IsPage end_ x
    → All (IsPage end_) xs
    → count x xs ≡ 0
    → ((b : ℕ) → Outside x b → m' b ≡ m b)
    → Chain m p xs
    → Chain m' p xs
Chain-frame m m' p [] pg pgs out same c = c
Chain-frame {x} m m' p (y ∷ ys) pg pgs out same c = (
  c.0,
  rw (same y (pages_apart pg pgs.0 (λ e. ground arith)))
      (Chain-frame m m' (m y) ys pg pgs.1 (omega arith) same c.1),
)
