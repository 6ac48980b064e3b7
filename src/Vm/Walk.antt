-- ===== src/Vm/Walk.antt =====
-- kernel/vm.c: `walk` that only looks.
use proj.Common.{
  ℕ, zero, suc, ◌+◌, ◌*◌, ◌≤◌, ◌<◌, ◌≡◌, refl, true, false, ok, panic, arith, leb, Bool-cases, inl,
  inr,
}
use proj.Kalloc.{Machine}
use proj.Vm.{maxva, walk_loop, walk, walkaddr, px, pte2pa, pte_v}

walk_loop-look :
    (id level pagetable va : ℕ) (m : Machine)
    → (p : ℕ) × (walk_loop id level pagetable va false m ≡ ok (p, m))
unfolding walk_loop
walk_loop-look id zero pagetable va m = (pagetable + 8 * px 0 va, refl)
walk_loop-look id (suc level) pagetable va m =
    elim (Bool-cases (pte_v (m.mem (pagetable + 8 * px (suc level) va)))) [
      | inl valid ↦
          let (p, e) =
            walk_loop-look id level (pte2pa (m.mem (pagetable + 8 * px (suc level) va))) va m in
          (p, rw valid e)
      | inr missing ↦ (0, rw missing refl)
    ]

-- Below MAXVA a `walk` that may not allocate returns, whatever the tables hold, and leaves memory
-- and the free list as they are; from MAXVA on it panics, and `walkaddr` returns 0.
pub walk_look :
    (id pagetable va : ℕ) (m : Machine)
    → (va < maxva → (p : ℕ) × (walk id pagetable va false m ≡ ok (p, m)))
      × (maxva ≤ va → (walk id pagetable va false m ≡ panic) × (walkaddr id pagetable va m ≡ ok 0))
unfolding walk walkaddr
walk_look id pagetable va m = (
  λ h.
      let below : leb maxva va ≡ false = ground arith in
      let (p, e) = walk_loop-look id 2 pagetable va m in (p, rw below e),
  λ h. let above : leb maxva va ≡ true = ground arith in (rw above refl, rw above refl),
)
