-- ===== src/Kalloc/Pages.antt =====
-- kernel/kalloc.c: `kfree` and `kalloc` on every branch.
use proj.Common.{
  ℕ, ◌%◌, ◌≡◌, inl, inr, refl, List, [], ◌∷◌, count, false, not, Run, ok, panic, arith, ltb, leb,
  ◌==◌, ==_refl, Bool-cases, ◌∙◌, ◌||◌, if◌then◌else◌,
}
use proj.Spinlock.{Cpu}
use proj.Spinlock.Nesting.{IsMasked}
use proj.Spinlock.Bracket.{
  acquire-free, release-held, settle, settle-IsMasked, settle_lem, free_lock,
}
use proj.Memory.{store, pgsize, phystop, memset_page}
use proj.Kalloc.{Machine, kfree, kalloc}
use proj.Kalloc.Lists.{IsPage, Holds, Outside, Chain-frame}

-- The processor is as it was: same depth of `push_off`, interrupts on or off as before.
abbrev pub SameCpu : Cpu → Cpu → Type 0
SameCpu c d = (d.noff ≡ c.noff) × (d.intr ≡ c.intr)

-- After `kfree` of `pa`.
abbrev freed : ℕ → Machine → Machine
freed pa m = record {
  cpu = settle m.cpu;
  lock = free_lock;
  freelist = pa;
  mem = store (memset_page m.mem pa 1) pa m.freelist;
}

kfree-freed :
    {end_ pa : ℕ} (id : ℕ) (m : Machine)
    → IsPage end_ pa
    → m.lock.locked ≡ false
    → IsMasked m.cpu
    → kfree end_ id pa m ≡ ok (freed pa m)
unfolding kfree
kfree-freed {end_} {pa} id m pg free mk =
    let legal : (not (pa % pgsize == 0) || (ltb pa end_ || leb phystop pa)) ≡ false =
      ground arith in
    rw (legal, acquire-free id m.cpu m.lock free, release-held id m.cpu mk)

-- Given back a page that it does not hold, an allocator at rest puts it in front of its free pages,
-- writes to that page alone, and leaves the lock free and the interrupts as they were.
pub kfree-Holds :
    {end_ pa : ℕ} (id : ℕ) {m : Machine} {xs : List ℕ}
    → Holds end_ m xs
    → IsPage end_ pa
    → count pa xs ≡ 0
    → (m' : Machine) × (kfree end_ id pa m ≡ ok m')
      × Holds end_ m' (pa ∷ xs)
      × ((b : ℕ) → Outside pa b → m'.mem b ≡ m.mem b)
      × SameCpu m.cpu m'.cpu
kfree-Holds {end_} {pa} id {m} {xs} h pg new =
    (freed pa m, kfree-freed id m pg h.unlocked h.masked, holds, same, settle_lem m.cpu)
  where
    same : (b : ℕ) → Outside pa b → (freed pa m).mem b ≡ m.mem b
    same b o = ground arith

    holds : Holds end_ (freed pa m) (pa ∷ xs)
    holds = record {
      kernel = h.kernel;
      unlocked = refl;
      masked = settle-IsMasked m.cpu h.masked;
      chain = (
        refl,
        rw (==_refl pa)
            (Chain-frame m.mem (freed pa m).mem m.freelist xs pg h.pages new same h.chain),
      );
      pages = (pg, h.pages);
      distinct = λ a. ground (arith, h.distinct a);
    }

-- With the allocator at rest `kfree` panics exactly on the addresses that are no page of it: not
-- aligned, below the end of the kernel or not below PHYSTOP. Neither the lock nor the interrupts
-- make it panic.
pub kfree-panic_iff :
    {end_ : ℕ} (id pa : ℕ) {m : Machine} {xs : List ℕ}
    → Holds end_ m xs
    → (kfree end_ id pa m ≡ panic → ¬ IsPage end_ pa)
      × (¬ IsPage end_ pa → kfree end_ id pa m ≡ panic)
unfolding kfree
kfree-panic_iff {end_} id pa {m} h = (to, from)
  where
    to : kfree end_ id pa m ≡ panic → ¬ IsPage end_ pa
    to e pg = cc (kfree-freed id m pg h.unlocked h.masked)

    from : ¬ IsPage end_ pa → kfree end_ id pa m ≡ panic
    from no_page = elim (Bool-cases (not (pa % pgsize == 0) || (ltb pa end_ || leb phystop pa))) [
      | inl bad ↦ rw (bad, kfree)
      | inr good ↦ absurd (no_page (ground arith))
    ]

abbrev taken : ℕ → Machine → Machine
taken q m = record {
  cpu = settle m.cpu;
  lock = free_lock;
  freelist = q;
  mem = if m.freelist == 0 then m.mem else memset_page m.mem m.freelist 5;
}

abbrev got : Machine → Run (ℕ × Machine)
got m = ok (m.freelist, taken (if m.freelist == 0 then m.freelist else m.mem m.freelist) m)

kalloc-taken : (id : ℕ) (m : Machine) → m.lock.locked ≡ false → IsMasked m.cpu → kalloc id m ≡ got m
unfolding kalloc
kalloc-taken id m free mk = rw (acquire-free id m.cpu m.lock free, release-held id m.cpu mk)

-- With no page free `kalloc` returns 0 and changes neither the list nor memory.
pub kalloc-nil :
    {end_ : ℕ} (id : ℕ) {m : Machine}
    → Holds end_ m []
    → (m' : Machine) × (kalloc id m ≡ ok (0, m'))
      × Holds end_ m' []
      × (m'.mem ≡ m.mem)
      × SameCpu m.cpu m'.cpu
kalloc-nil {end_} id {m} h = (
  taken 0 m,
  kalloc-taken id m h.unlocked h.masked ∙ nothing,
  holds,
  ground (arith, h.chain),
  settle_lem m.cpu,
)
  where
    nothing : got m ≡ ok (0, taken 0 m)
    nothing = ground (arith, h.chain)

    holds : Holds end_ (taken 0 m) []
    holds = record {
      kernel = h.kernel;
      unlocked = refl;
      masked = settle-IsMasked m.cpu h.masked;
      chain = refl;
      pages = tt;
      distinct = h.distinct;
    }

-- With pages free an allocator at rest hands out the first of them, which it no longer holds,
-- writes to that page alone, and leaves the lock free and the interrupts as they were.
pub kalloc-cons :
    {end_ x : ℕ} (id : ℕ) {m : Machine} {xs : List ℕ}
    → Holds end_ m (x ∷ xs)
    → (m' : Machine) × (kalloc id m ≡ ok (x, m'))
      × Holds end_ m' xs
      × ((b : ℕ) → Outside x b → m'.mem b ≡ m.mem b)
      × SameCpu m.cpu m'.cpu
kalloc-cons {end_} {x} id {m} {xs} h = (
  taken (m.mem x) m,
  kalloc-taken id m h.unlocked h.masked ∙ first,
  holds,
  same,
  settle_lem m.cpu,
)
  where
    first : got m ≡ ok (x, taken (m.mem x) m)
    first = ground (arith, h.chain.0, h.pages.0, h.kernel)

    same : (b : ℕ) → Outside x b → (taken (m.mem x) m).mem b ≡ m.mem b
    same b o = ground (arith, h.chain.0)

    holds : Holds end_ (taken (m.mem x) m) xs
    holds = record {
      kernel = h.kernel;
      unlocked = refl;
      masked = settle-IsMasked m.cpu h.masked;
      chain =
          Chain-frame m.mem (taken (m.mem x) m).mem (m.mem x) xs h.pages.0 h.pages.1
            (ground (arith, h.distinct x)) same h.chain.1;
      pages = h.pages.1;
      distinct = λ a. omega (arith, h.distinct a);
    }
