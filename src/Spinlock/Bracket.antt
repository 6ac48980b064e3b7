-- ===== src/Spinlock/Bracket.antt =====
-- kernel/spinlock.c: a critical section of one processor.
use proj.Common.{◌≡◌, refl, false, true, some, none, ok, arith, ==_refl, ℕ}
use proj.Spinlock.{Cpu, Spinlock, push_off, acquire, release}
use proj.Spinlock.Nesting.{IsMasked}

abbrev pub free_lock : Spinlock
free_lock = record { locked = false; cpu = none }

abbrev pub held_by : ℕ → Spinlock
held_by id = record { locked = true; cpu = some id }

-- What a critical section leaves of the processor's state: only `intena` may have changed.
pub settle : Cpu → Cpu
unfolding push_off
settle c = record c { intena = (push_off c).intena }

pub acquire-free :
    (id : ℕ) (c : Cpu) (lk : Spinlock)
    → lk.locked ≡ false
    → acquire id (c, lk) ≡ ok (push_off c, held_by id)
unfolding acquire
acquire-free id c lk e = ground arith

pub release-held :
    (id : ℕ) (c : Cpu) → IsMasked c → release id (push_off c, held_by id) ≡ ok (settle c, free_lock)
unfolding release settle
release-held id c m = ground (arith, ==_refl id)

pub settle-IsMasked : (c : Cpu) → IsMasked c → IsMasked (settle c)
unfolding settle
settle-IsMasked c m h = m h

pub settle_lem : (c : Cpu) → ((settle c).noff ≡ c.noff) × ((settle c).intr ≡ c.intr)
unfolding settle
settle_lem c = (refl, refl)
