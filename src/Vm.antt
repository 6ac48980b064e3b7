-- ===== src/Vm.antt =====
-- kernel/vm.c and the Sv39 macros of kernel/riscv.h: page tables in the memory of the page
-- allocator. A page table entry is the word at its address. `end_` and `id` are those of the
-- allocator.
pub mod Entry
pub mod Walk
pub mod Space
pub mod Map
use proj.Common.{
  ℕ, zero, suc, ◌+◌, ◌-◌, ◌*◌, ◌/◌, ◌%◌, ◌^◌, Bool, true, false, not, ◌&&◌, Run, ok, blocked, ◌>>=◌,
  ◌>>◌, panic_if, ltb, leb, ◌==◌, if◌then◌else◌,
}
use proj.Memory.{store, pgsize, pground_down, memset_page}
use proj.Kalloc.{Machine, kalloc, kfree}

abbrev pub maxva : ℕ
maxva = 2 ^ 38

-- `PX(level, va)`
abbrev pub px : ℕ → ℕ → ℕ
px level va = va / 2 ^ (12 + 9 * level) % 512

abbrev pub pa2pte : ℕ → ℕ
pa2pte pa = pa / 2 ^ 12 * 2 ^ 10

abbrev pub pte2pa : ℕ → ℕ
pte2pa pte = pte / 2 ^ 10 * 2 ^ 12 % 2 ^ 64

abbrev pub pte_flags : ℕ → ℕ
pte_flags pte = pte % 2 ^ 10

-- Bit `i` is set.
abbrev pub has_bit : ℕ → ℕ → Bool
has_bit i w = w / 2 ^ i % 2 == 1

-- `w | (1 << i)`
abbrev pub set_bit : ℕ → ℕ → ℕ
set_bit i w = if has_bit i w then w else w + 2 ^ i

-- PTE_V, PTE_R, PTE_W, PTE_X and PTE_U are bits 0 to 4.
abbrev pub pte_v : ℕ → Bool
pte_v pte = has_bit 0 pte

abbrev pub pte_u : ℕ → Bool
pte_u pte = has_bit 4 pte

abbrev pub set_word : ℕ → ℕ → Machine → Machine
set_word p v m = record m { mem = store m.mem p v }

abbrev pub clear_page : ℕ → Machine → Machine
clear_page pa m = record m { mem = memset_page m.mem pa 0 }

-- The loop of `walk` from `level` down; the address of the entry, 0 for none.
unfoldable pub walk_loop : ℕ → ℕ → ℕ → ℕ → Bool → Machine → Run (ℕ × Machine)
walk_loop id zero pagetable va alloc m = ok (pagetable + 8 * px 0 va, m)
walk_loop id (suc level) pagetable va alloc m =
    let pte = pagetable + 8 * px (suc level) va in
    let down = walk_loop id level (pte2pa (m.mem pte)) va alloc m in
    let extend = kalloc id m >>= λ (page, m').
    let rest =
      walk_loop id level page va alloc (set_word pte (pa2pte page + 1) (clear_page page m')) in
    if page == 0 then ok (0, m') else rest in
    if pte_v (m.mem pte) then down else if alloc then extend else ok (0, m)

unfoldable pub walk : ℕ → ℕ → ℕ → Bool → Machine → Run (ℕ × Machine)
unfolding walk_loop
walk id pagetable va alloc m = panic_if (leb maxva va) >> walk_loop id 2 pagetable va alloc m

unfoldable pub walkaddr : ℕ → ℕ → ℕ → Machine → Run ℕ
walkaddr id pagetable va m =
    let found = walk id pagetable va false m >>= λ (pte, m').
    let w = m'.mem pte in
    ok (
      if pte == 0 then 0 else if not (pte_v w) then 0 else if not (pte_u w) then 0 else pte2pa w) in
    if leb maxva va then ok 0 else found

-- The loop of `mappages`, on fuel; whether it succeeds.
unfoldable pub mappages_loop : ℕ → ℕ → ℕ → ℕ → ℕ → ℕ → ℕ → Machine → Run (Bool × Machine)
mappages_loop id zero pagetable a last pa perm m = blocked
mappages_loop id (suc fuel) pagetable a last pa perm m = walk id pagetable a true m >>= λ (pte, m').
    let m'' = set_word pte (set_bit 0 (pa2pte pa + perm)) m' in
    let rest = mappages_loop id fuel pagetable (a + pgsize) last (pa + pgsize) perm m'' in
    if pte == 0
    then ok (false, m')
    else (panic_if (pte_v (m'.mem pte)) >> (if a == last then ok (true, m'') else rest))

-- With fuel for its loop.
unfoldable pub mappages_within : ℕ → ℕ → ℕ → ℕ → ℕ → ℕ → ℕ → Machine → Run (Bool × Machine)
unfolding mappages_loop
mappages_within id fuel pagetable va size pa perm m = do
  panic_if (size == 0)
  let last = pground_down ((va + size + 2 ^ 64 - 1) % 2 ^ 64)
  mappages_loop id fuel pagetable (pground_down va) last pa perm m

-- `walk` panics past MAXVA: there are no more rounds than pages below it, and one.
unfoldable pub mappages : ℕ → ℕ → ℕ → ℕ → ℕ → ℕ → Machine → Run (Bool × Machine)
mappages id pagetable va size pa perm m =
    mappages_within id (maxva / pgsize + 1) pagetable va size pa perm m

-- The loop of `uvmunmap` over the pages that are left.
unfoldable pub uvmunmap_loop : ℕ → ℕ → ℕ → ℕ → ℕ → Bool → Machine → Run Machine
uvmunmap_loop end_ id pagetable a zero do_free m = ok m
uvmunmap_loop end_ id pagetable a (suc n) do_free m = do
  (pte, m₁) ← walk id pagetable a false m
  panic_if (pte == 0)
  panic_if (not (pte_v (m₁.mem pte)))
  panic_if (pte_flags (m₁.mem pte) == 1)
  m₂ ← if do_free then kfree end_ id (pte2pa (m₁.mem pte)) m₁ else ok m₁
  uvmunmap_loop end_ id pagetable (a + pgsize) n do_free (set_word pte 0 m₂)

unfoldable pub uvmunmap : ℕ → ℕ → ℕ → ℕ → ℕ → Bool → Machine → Run Machine
unfolding uvmunmap_loop
uvmunmap end_ id pagetable va npages do_free m =
    panic_if (not (va % pgsize == 0)) >> uvmunmap_loop end_ id pagetable va npages do_free m

-- The page of the new table, 0 if there is none.
unfoldable pub uvmcreate : ℕ → Machine → Run (ℕ × Machine)
uvmcreate id m = kalloc id m >>= λ (pagetable, m').
    ok (pagetable, if pagetable == 0 then m' else clear_page pagetable m')
