-- ===== src/Vm/Entry.antt =====
-- kernel/riscv.h: page table entries and the three indices of a virtual address.
use proj.Common.{ℕ, ◌+◌, ◌/◌, ◌%◌, ◌^◌, ◌<◌, ◌≡◌, true, arith}
use proj.Memory.{pgsize}
use proj.Vm.{maxva, px, pa2pte, pte2pa, pte_flags, pte_v, set_bit}

-- The entry that `mappages` writes for a page below 2 ^ 56 and permissions of ten bits is valid,
-- and gives back the page and the permissions, with PTE_V added.
pub pte2pa-pa2pte :
    (pa perm : ℕ)
    → pa % pgsize ≡ 0
    → pa < 2 ^ 56
    → perm < 2 ^ 10
    → (pte2pa (set_bit 0 (pa2pte pa + perm)) ≡ pa)
      × (pte_flags (set_bit 0 (pa2pte pa + perm)) ≡ set_bit 0 perm)
      × (pte_v (set_bit 0 (pa2pte pa + perm)) ≡ true)
pte2pa-pa2pte pa perm al small p = (ground arith, ground arith, ground arith)

-- Each index is below 512, the number of entries of a table, and two addresses below MAXVA with the
-- same three indices lie in the same page.
pub px-injective :
    (va vb : ℕ)
    → va < maxva
    → vb < maxva
    → px 0 va ≡ px 0 vb
    → px 1 va ≡ px 1 vb
    → px 2 va ≡ px 2 vb
    → (va / pgsize ≡ vb / pgsize) × ((level : ℕ) → px level va < 512)
px-injective va vb a b e f g = (omega arith, λ level. omega arith)
