-- ===== src/Spinlock/Exclusion.antt =====
-- kernel/spinlock.c: `acquire` and `release` on several processors, at the grain of their memory
-- accesses. The steps of one processor are the swap that takes the lock (a swap that finds it held
-- is `spin`), the write of `lk->cpu`, the clearing of `lk->cpu` and the store that unlocks.
use proj.Common.{ℕ, ◌≡◌, refl, ◌↔◌, Bool, true, false, ◌&&◌, none, some, arith, ◌==◌, if◌then◌else◌}
use proj.Spinlock.{Spinlock, initlock, is_cpu, holding}

pub data Phase : Type 0 where
  outside spinning taken inside releasing : Phase

-- The lock is this processor's, from the swap that took it to the store that gives it back.
abbrev pub owns : Phase → Bool
owns outside = false
owns spinning = false
owns taken = true
owns inside = true
owns releasing = true

pub record System : Type 0 where
  pub lock : Spinlock
  pub phase : ℕ → Phase

abbrev pub move : (ℕ → Phase) → ℕ → Phase → ℕ → Phase
move ph c p d = if c == d then p else ph d

-- One memory access by processor `c`.
pub data Step (s : System) : System → Type 0 where
  -- `acquire` passed its check `!holding(lk)`
  begin :
      (c : ℕ)
      → s.phase c ≡ outside
      → holding c s.lock ≡ false
      → Step s (record s { phase = move s.phase c spinning })
  spin : (c : ℕ) → s.phase c ≡ spinning → s.lock.locked ≡ true → Step s s
  swap :
      (c : ℕ)
      → s.phase c ≡ spinning
      → s.lock.locked ≡ false
      → Step s (record {
        lock = record { locked = true; cpu = s.lock.cpu };
        phase = move s.phase c taken;
      })
  record_cpu :
      (c : ℕ)
      → s.phase c ≡ taken
      → Step s (record {
        lock = record { locked = s.lock.locked; cpu = some c };
        phase = move s.phase c inside;
      })
  -- `release` passed its check `holding(lk)`
  clear_cpu :
      (c : ℕ)
      → s.phase c ≡ inside
      → holding c s.lock ≡ true
      → Step s (record {
        lock = record { locked = s.lock.locked; cpu = none };
        phase = move s.phase c releasing;
      })
  unlock :
      (c : ℕ)
      → s.phase c ≡ releasing
      → Step s (record {
        lock = record { locked = false; cpu = s.lock.cpu };
        phase = move s.phase c outside;
      })

unfoldable pub start : System
unfolding initlock
start = record { lock = initlock; phase = λ _. outside }

pub data Reach : System → Type 0 where
  here : Reach start
  next : {s t : System} → Reach s → Step s t → Reach t

record Inv (s : System) : Type 0 where
  alone : (c d : ℕ) → owns (s.phase c) ≡ true → owns (s.phase d) ≡ true → c ≡ d
  locked : (c : ℕ) → owns (s.phase c) ≡ true → s.lock.locked ≡ true
  recorded : (c : ℕ) → s.phase c ≡ inside → s.lock.cpu ≡ some c
  holder : (c : ℕ) → s.lock.cpu ≡ some c → s.phase c ≡ inside

module _ {s : System} (v : Inv s) where
  Step-Inv : {t : System} → Step s t → Inv t
  Step-Inv (begin c p h) = record {
    alone = λ a b. ground (arith, v.alone a b);
    locked = λ a. ground (arith, v.locked a);
    recorded = λ a. ground (arith, v.recorded a);
    holder = λ a. ground (arith, v.holder a, p);
  }
  Step-Inv (spin c p l) = v
  Step-Inv (swap c p l) = record {
    alone = λ a b. ground (arith, v.alone a b, v.locked a, v.locked b, l);
    locked = λ a _. refl;
    recorded = λ a. ground (arith, v.recorded a);
    holder = λ a. ground (arith, v.holder a, p);
  }
  Step-Inv (record_cpu c p) = record {
    alone = λ a b. ground (arith, v.alone a b, v.alone a c, v.alone c b, p);
    locked = λ a. ground (arith, v.locked a, v.locked c, p);
    recorded = λ a. ground (arith, v.recorded a, v.alone a c, p);
    holder = λ a. ground (arith, p);
  }
  Step-Inv (clear_cpu c p h) = record {
    alone = λ a b. ground (arith, v.alone a b, v.alone a c, v.alone c b, p);
    locked = λ a. ground (arith, v.locked a, v.locked c, p);
    recorded = λ a. ground (arith, v.recorded a, v.alone a c, p);
    holder = λ a. ground (arith, p);
  }
  Step-Inv (unlock c p) = record {
    alone = λ a b. ground (arith, v.alone a b, v.alone a c, v.alone c b, p);
    locked = λ a. ground (arith, v.alone a c, p);
    recorded = λ a. ground (arith, v.recorded a, v.alone a c, p);
    holder = λ a. ground (arith, v.holder a, p);
  }

Reach-Inv : {s : System} → Reach s → Inv s
unfolding start initlock
Reach-Inv here = record {
  alone = λ c d h. cc;
  locked = λ c h. cc;
  recorded = λ c h. cc;
  holder = λ c h. cc;
}
Reach-Inv (next r st) = Step-Inv (Reach-Inv r) st

-- In every reachable state at most one processor owns the lock, from the swap in `acquire` to the
-- last store of `release`.
pub mutual_exclusion :
    {s : System} (c d : ℕ) → Reach s → owns (s.phase c) ≡ true → owns (s.phase d) ≡ true → c ≡ d
mutual_exclusion c d r = (Reach-Inv r).alone c d

-- In every reachable state `holding` answers true for a processor exactly when it has written
-- itself into the lock and has not begun to give it back.
pub holding_iff : {s : System} (c : ℕ) → Reach s → (holding c s.lock ≡ true) ↔ (s.phase c ≡ inside)
unfolding holding
holding_iff {s} c r = (to, from)
  where
    v : Inv s
    v = Reach-Inv r

    to : (s.lock.locked && is_cpu s.lock.cpu c) ≡ true → s.phase c ≡ inside
    to = ground (arith, v.holder c)

    from : s.phase c ≡ inside → (s.lock.locked && is_cpu s.lock.cpu c) ≡ true
    from = ground (arith, v.locked c, v.recorded c)
