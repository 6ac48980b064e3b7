-- ===== src/Vm/Space.antt =====
-- kernel/vm.c: what grows, shrinks, copies and shares the memory of a process.
use proj.Common.{
  ℕ, zero, suc, ◌+◌, ◌-◌, ◌*◌, ◌/◌, ◌^◌, Bool, true, false, not, ◌&&◌, ◌||◌, Run, ok, blocked,
  ◌>>=◌, ◌>>◌, panic_if, ltb, leb, ◌==◌, if◌then◌else◌,
}
use proj.Memory.{pgsize, pground_up}
use proj.Kalloc.{Machine, kalloc, kfree}
use proj.Vm.{
  walk, mappages, uvmunmap, pte2pa, pte_v, pte_flags, has_bit, set_bit, set_word, clear_page,
}

module _ (end_ id : ℕ) where
  unfoldable pub uvmdealloc : ℕ → ℕ → ℕ → Machine → Run (ℕ × Machine)
  uvmdealloc pagetable oldsz newsz m =
      let npages = (pground_up oldsz - pground_up newsz) / pgsize in
      if leb oldsz newsz
      then ok (oldsz, m)
      else if ltb (pground_up newsz) (pground_up oldsz)
      then (uvmunmap end_ id pagetable (pground_up newsz) npages true m >>= λ m'. ok (newsz, m'))
      else ok (newsz, m)

  -- What `uvmalloc` does when it runs out of memory at address `a`.
  abbrev undo : ℕ → ℕ → ℕ → Machine → Run (ℕ × Machine)
  undo pagetable a oldsz m = uvmdealloc pagetable a oldsz m >>= λ (_, m'). ok (0, m')

  -- The loop of `uvmalloc` with `n` pages to go; the result is `newsz`, 0 for a failure.
  unfoldable pub uvmalloc_loop : ℕ → ℕ → ℕ → ℕ → ℕ → ℕ → Machine → Run (ℕ × Machine)
  uvmalloc_loop zero pagetable a oldsz newsz xperm m = ok (newsz, m)
  uvmalloc_loop (suc n) pagetable a oldsz newsz xperm m = do
    (mem, m₁) ← kalloc id m
    let mapped =
        mappages id pagetable a pgsize mem (set_bit 1 (set_bit 4 xperm)) (clear_page mem m₁)
        >>= λ (fine, m₂).
            let rest = uvmalloc_loop n pagetable (a + pgsize) oldsz newsz xperm m₂ in
            if fine then rest else (kfree end_ id mem m₂ >>= undo pagetable a oldsz)
    if mem == 0 then undo pagetable a oldsz m₁ else mapped

  unfoldable pub uvmalloc : ℕ → ℕ → ℕ → ℕ → Machine → Run (ℕ × Machine)
  unfolding uvmalloc_loop
  uvmalloc pagetable oldsz newsz xperm m =
      let from = pground_up oldsz in
      if ltb newsz oldsz
      then ok (oldsz, m)
      else uvmalloc_loop ((newsz - from + pgsize - 1) / pgsize) pagetable from from newsz xperm m

  -- The entries from `512 - n` on; `free` frees a table of the next level.
  unfoldable pub freewalk_loop : (ℕ → Machine → Run Machine) → ℕ → ℕ → Machine → Run Machine
  freewalk_loop free zero pagetable m = ok m
  freewalk_loop free (suc n) pagetable m =
      let p = pagetable + 8 * (512 - suc n) in
      let pte = m.mem p in
      let inner = not (has_bit 1 pte || (has_bit 2 pte || has_bit 3 pte)) in
      let child = free (pte2pa pte) m >>= λ m'. freewalk_loop free n pagetable (set_word p 0 m') in
      let next = panic_if (pte_v pte) >> freewalk_loop free n pagetable m in
      if pte_v pte && inner then child else next

  -- On fuel for the depth of the tree, which is 3 for Sv39.
  unfoldable pub freewalk : ℕ → ℕ → Machine → Run Machine
  unfolding freewalk_loop
  freewalk zero pagetable m = blocked
  freewalk (suc depth) pagetable m =
      freewalk_loop (freewalk depth) 512 pagetable m >>= kfree end_ id pagetable

  unfoldable pub uvmfree : ℕ → ℕ → Machine → Run Machine
  uvmfree pagetable sz m = do
    m' ← if ltb 0 sz then uvmunmap end_ id pagetable 0 (pground_up sz / pgsize) true m else ok m
    freewalk 3 pagetable m'

  -- `memmove(mem, pa, PGSIZE)`
  abbrev copy_page : ℕ → ℕ → Machine → Machine
  copy_page mem pa m = record m {
    mem = λ a. if leb mem a && ltb a (mem + pgsize) then m.mem (pa + (a - mem)) else m.mem a;
  }

  -- The label `err` of `uvmcopy`, and the failure of `copytable`.
  abbrev unmap : ℕ → ℕ → Machine → Run (Bool × Machine)
  unmap new i m = uvmunmap end_ id new 0 (i / pgsize) true m >>= λ m'. ok (false, m')

  -- The loop of `uvmcopy` at address `i` with `n` pages to go; whether it succeeds.
  unfoldable pub uvmcopy_loop : ℕ → ℕ → ℕ → ℕ → Machine → Run (Bool × Machine)
  uvmcopy_loop zero old new i m = ok (true, m)
  uvmcopy_loop (suc n) old new i m = do
    (pte, m₁) ← walk id old i false m
    panic_if (pte == 0)
    let w = m₁.mem pte
    panic_if (not (pte_v w))
    (mem, m₂) ← kalloc id m₁
    let mapped =
        mappages id new i pgsize mem (pte_flags w) (copy_page mem (pte2pa w) m₂) >>= λ (fine, m₃).
        let rest = uvmcopy_loop n old new (i + pgsize) m₃ in
        if fine then rest else (kfree end_ id mem m₃ >>= unmap new i)
    if mem == 0 then unmap new i m₂ else mapped

  unfoldable pub uvmcopy : ℕ → ℕ → ℕ → Machine → Run (Bool × Machine)
  unfolding uvmcopy_loop
  uvmcopy old new sz m = uvmcopy_loop ((sz + pgsize - 1) / pgsize) old new 0 m

  -- The loop of `copytable`, which maps the pages of the old table in the new one and shares them.
  unfoldable pub copytable_loop : ℕ → ℕ → ℕ → ℕ → Machine → Run (Bool × Machine)
  copytable_loop zero old new i m = ok (true, m)
  copytable_loop (suc n) old new i m = do
    (pte, m₁) ← walk id old i false m
    panic_if (pte == 0)
    let w = m₁.mem pte
    let skip = copytable_loop n old new (i + pgsize) m₁
    let shared = mappages id new i pgsize (pte2pa w) (pte_flags w) m₁ >>= λ (fine, m₂).
        let rest = copytable_loop n old new (i + pgsize) m₂ in if fine then rest else unmap new i m₂
    if not (pte_v w) then skip else shared

  unfoldable pub copytable : ℕ → ℕ → ℕ → Machine → Run (Bool × Machine)
  unfolding copytable_loop
  copytable old new sz m = copytable_loop ((sz + pgsize - 1) / pgsize) old new 0 m

-- `*pte &= ~PTE_U`
unfoldable pub uvmclear : ℕ → ℕ → ℕ → Machine → Run Machine
uvmclear id pagetable va m = do
  (pte, m') ← walk id pagetable va false m
  panic_if (pte == 0)
  let w = m'.mem pte
  ok (set_word pte (if has_bit 4 w then w - 2 ^ 4 else w) m')
