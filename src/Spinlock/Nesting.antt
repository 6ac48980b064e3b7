-- ===== src/Spinlock/Nesting.antt =====
-- kernel/spinlock.c: `push_off` and `pop_off` are matched.
use proj.Common.{
  ◌+◌, ◌<◌, ◌≡◌, refl, sym, ap, ◌∙◌, fun_ext, >>=-assoc, false, List, [], ◌∷◌, ◌++◌, Run, ok, ◌>>=◌,
  arith,
}
use proj.Spinlock.{Cpu, push_off, pop_off}

-- Interrupts are off while a `push_off` is pending.
abbrev pub IsMasked : Cpu → Type 0
IsMasked c = 0 < c.noff → c.intr ≡ false

pub data Call : Type 0 where
  push pop : Call

pub run_calls : List Call → Cpu → Run Cpu
run_calls [] c = ok c
run_calls (push ∷ cs) c = run_calls cs (push_off c)
run_calls (pop ∷ cs) c = pop_off c >>= run_calls cs

-- Well-bracketed sequences of calls.
pub data Balanced : List Call → Type 0 where
  nil : Balanced []
  nest : {xs ys : List Call} → Balanced xs → Balanced ys → Balanced (push ∷ (xs ++ (pop ∷ ys)))

run_calls-append :
    (xs ys : List Call) (c : Cpu) → run_calls (xs ++ ys) c ≡ run_calls xs c >>= run_calls ys
unfolding run_calls
run_calls-append [] ys c = refl
run_calls-append (push ∷ xs) ys c = run_calls-append xs ys (push_off c)
run_calls-append (pop ∷ xs) ys c =
    ap (λ k. pop_off c >>= k) (fun_ext (run_calls-append xs ys))
    ∙ sym (>>=-assoc (pop_off c) (run_calls xs) (run_calls ys))

-- What a bracketed sequence leaves as it was; `intena` belongs to the outermost bracket.
abbrev pub Restores : Cpu → Run Cpu → Type 0
Restores c r =
    (d : Cpu) × (r ≡ ok d)
    × (d.noff ≡ c.noff)
    × (d.intr ≡ c.intr)
    × (0 < c.noff → d.intena ≡ c.intena)

-- The closing bracket undoes the opening one.
pop_off-push_off :
    (c d : Cpu)
    → IsMasked c
    → d.noff ≡ c.noff + 1
    → d.intr ≡ false
    → d.intena ≡ (push_off c).intena
    → Restores c (pop_off d)
unfolding push_off pop_off
pop_off-push_off c d m n i a =
    (record d { noff = c.noff; intr = c.intr }, ground arith, refl, refl, ground arith)

noff-push_off : (c : Cpu) → (push_off c).noff ≡ c.noff + 1
unfolding push_off
noff-push_off c = refl

intr-push_off : (c : Cpu) → (push_off c).intr ≡ false
unfolding push_off
intr-push_off c = refl

push_off-IsMasked : (c : Cpu) → IsMasked (push_off c)
push_off-IsMasked c _ = intr-push_off c

push_off-pending : (c : Cpu) → 0 < (push_off c).noff
push_off-pending c = omega (arith, noff-push_off c)

-- Whatever well-bracketed sequence of `push_off` and `pop_off` calls a processor makes from a state
-- where a pending `push_off` means that interrupts are off, no call panics, and at the end the
-- depth and the interrupt enable bit are those of the start; so is `intena`, if a `push_off` was
-- pending.
pub run_calls-Restores :
    {xs : List Call} (c : Cpu) → Balanced xs → IsMasked c → Restores c (run_calls xs c)
unfolding run_calls
run_calls-Restores c nil m = (c, refl, refl, refl, λ _. refl)
run_calls-Restores c (nest {xs} {ys} b b') m =
    let (d, run, n, i, a) = run_calls-Restores (push_off c) b (push_off-IsMasked c) in
    let (e, popped, n', i', a') =
      pop_off-push_off c d m (n ∙ noff-push_off c) (i ∙ intr-push_off c) (a (push_off-pending c)) in
    let (f, run', n'', i'', a'') = run_calls-Restores e b' (masked e n' i') in
    (
      f,
      rw (run_calls-append xs (pop ∷ ys) (push_off c), run, popped) run',
      n'' ∙ n',
      i'' ∙ i',
      λ h. a'' (omega arith) ∙ a' h,
    )
  where
    masked : (e : Cpu) → e.noff ≡ c.noff → e.intr ≡ c.intr → IsMasked e
    masked e p q h = q ∙ m (omega arith)
