-- ===== src/Kalloc.antt =====
-- kernel/kalloc.c: the allocator of physical pages. The free list is threaded through the first
-- word of each free page. `end_` is the linker's symbol `end`, and `id` the processor that runs the
-- code.
pub mod Lists
pub mod Pages
pub mod Boot
pub mod Client
use proj.Common.{
  ℕ, zero, suc, ◌+◌, ◌/◌, ◌%◌, ◌||◌, not, Run, ok, blocked, ◌>>=◌, ◌>>◌, panic_if, ltb, leb, ◌==◌,
  if◌then◌else◌,
}
use proj.Spinlock.{Cpu, Spinlock, initlock, acquire, release}
use proj.Memory.{Mem, store, pgsize, pground_up, phystop, memset_page}

-- `kmem`, physical memory and the processor that runs the allocator.
pub record Machine : Type 0 where
  pub cpu : Cpu
  pub lock : Spinlock
  pub freelist : ℕ
  pub mem : Mem

module _ (end_ id : ℕ) where
  unfoldable pub kfree : ℕ → Machine → Run Machine
  kfree pa m = do
    panic_if (not (pa % pgsize == 0) || (ltb pa end_ || leb phystop pa))
    let mem = memset_page m.mem pa 1
    (cpu, lock) ← acquire id (m.cpu, m.lock)
    let mem' = store mem pa m.freelist
    (cpu', lock') ← release id (cpu, lock)
    ok (record { cpu = cpu'; lock = lock'; freelist = pa; mem = mem' })

  -- One round frees a page; on fuel.
  unfoldable pub freerange_loop : ℕ → ℕ → ℕ → Machine → Run Machine
  freerange_loop zero p pa_end m = blocked
  freerange_loop (suc fuel) p pa_end m =
      let rest = kfree p m >>= freerange_loop fuel (p + pgsize) pa_end in
      if leb (p + pgsize) pa_end then rest else ok m

  unfoldable pub freerange : ℕ → ℕ → ℕ → Machine → Run Machine
  unfolding freerange_loop
  freerange fuel pa_start pa_end m = freerange_loop fuel (pground_up pa_start) pa_end m

  -- There are at most `phystop / pgsize` pages.
  unfoldable pub kinit : Machine → Run Machine
  unfolding freerange initlock
  kinit m = freerange (phystop / pgsize + 1) end_ phystop (record m { lock = initlock })

-- The result is 0 when no page is free.
unfoldable pub kalloc : ℕ → Machine → Run (ℕ × Machine)
kalloc id m = do
  (cpu, lock) ← acquire id (m.cpu, m.lock)
  let r = m.freelist
  let freelist = if r == 0 then r else m.mem r
  (cpu', lock') ← release id (cpu, lock)
  let mem = if r == 0 then m.mem else memset_page m.mem r 5
  ok (r, record { cpu = cpu'; lock = lock'; freelist = freelist; mem = mem })
