-- ===== src/Spinlock.antt =====
-- kernel/spinlock.c: spin locks, and the nesting of disabled interrupts.
pub mod Nesting
pub mod Exclusion
pub mod Bracket
use proj.Common.{
  ℕ, ◌+◌, ◌-◌, Bool, true, false, ◌&&◌, not, Option, none, some, Run, ok, panic, blocked, ◌>>=◌,
  ◌>>◌, panic_if, ltb, ◌==◌, if◌then◌else◌,
}

-- `struct cpu`, as far as the locks use it, with the interrupt enable bit of its sstatus register.
pub record Cpu : Type 0 where
  pub noff : ℕ
  pub intena : Bool
  pub intr : Bool

-- `struct spinlock` without its debugging name; `cpu` is the index of the holder.
pub record Spinlock : Type 0 where
  pub locked : Bool
  pub cpu : Option ℕ

unfoldable pub initlock : Spinlock
initlock = record { locked = false; cpu = none }

abbrev pub is_cpu : Option ℕ → ℕ → Bool
is_cpu none id = false
is_cpu (some c) id = c == id

unfoldable pub holding : ℕ → Spinlock → Bool
holding id lk = lk.locked && is_cpu lk.cpu id

unfoldable pub push_off : Cpu → Cpu
push_off c = record {
  noff = c.noff + 1;
  intena = if c.noff == 0 then c.intr else c.intena;
  intr = false;
}

unfoldable pub pop_off : Cpu → Run Cpu
pop_off c = do
  panic_if c.intr
  panic_if (ltb c.noff 1)
  let noff = c.noff - 1
  let intr = if (noff == 0) && c.intena then true else c.intr
  ok (record c { noff = noff; intr = intr })

-- On a lock that another processor holds the swap loop spins.
unfoldable pub acquire : ℕ → Cpu × Spinlock → Run (Cpu × Spinlock)
unfolding push_off holding
acquire id (c, lk) = do
  let c' = push_off c
  panic_if (holding id lk)
  if lk.locked then blocked else ok (c', record { locked = true; cpu = some id })

unfoldable pub release : ℕ → Cpu × Spinlock → Run (Cpu × Spinlock)
unfolding holding pop_off
release id (c, lk) = do
  panic_if (not (holding id lk))
  let lk' : Spinlock = record { locked = false; cpu = none }
  c' ← pop_off c
  ok (c', lk')
