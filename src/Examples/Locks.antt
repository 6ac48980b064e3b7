-- ===== src/Examples/Locks.antt =====
-- kernel/spinlock.c at concrete inputs.
use proj.Common.{ℕ, ◌≡◌, refl, true, false, [], ◌∷◌, some, arith}
use proj.Spinlock.{Cpu, initlock, holding}
use proj.Spinlock.Nesting.{push, pop, run_calls, nil, nest, Restores, run_calls-Restores}
use proj.Spinlock.Exclusion.{
  System, Reach, here, next, begin, swap, record_cpu, start, outside, spinning, taken, inside, move,
  mutual_exclusion,
}

abbrev idle_cpu : Cpu
idle_cpu = record { noff = 0; intena = false; intr = true }

run_calls_example : Restores idle_cpu (run_calls (push ∷ push ∷ pop ∷ pop ∷ []) idle_cpu)
run_calls_example =
    run_calls-Restores idle_cpu (nest (nest nil nil) nil) (λ h. absurd (omega arith))

-- Processor 1 has taken the lock.
abbrev entered : System
entered = record {
  lock = record { locked = true; cpu = some 1 };
  phase = move (move (move (λ _. outside) 1 spinning) 1 taken) 1 inside;
}

entered-Reach : Reach entered
unfolding start initlock holding
entered-Reach = next (next (next here (begin 1 refl refl)) (swap 1 refl refl)) (record_cpu 1 refl)

mutual_exclusion_example : ◌≡◌ {A = ℕ} 1 1
mutual_exclusion_example = mutual_exclusion {s = entered} 1 1 entered-Reach refl refl
