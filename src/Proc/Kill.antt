-- ===== src/Proc/Kill.antt =====
-- kernel/proc.c: `kill` marks the first process with the pid, and wakes it if it sleeps.
use proj.Common.{
  ℕ, zero, suc, ◌+◌, ◌≤◌, ◌<◌, ◌≡◌, ◌≢◌, refl, sym, ap, ◌∙◌, true, false, ok, arith, ◌==◌,
  if◌then◌else◌, Bool-cases, inl, inr,
}
use proj.Proc.{unheld, Proc, Table, nproc, put, lock, unlock, is_sleeping, runnable}
use proj.Proc.Sched.{kill_one, kill_loop, kill}
use proj.Proc.Locks.{
  Quiet, acquire-ok, release-put, release-lock, procs-put_self, put-put, locked-lock,
}

kill_one-locked : (p : Proc) → (kill_one p).locked ≡ p.locked
unfolding kill_one
kill_one-locked p = refl

unlock-kill_one : (p : Proc) → p.locked ≡ unheld → unlock (kill_one (lock p)) ≡ kill_one p
unfolding kill_one lock unlock
unlock-kill_one p e =
    ap {B = Proc}
      (λ b. record p {
        locked = b;
        killed = true;
        state = if is_sleeping p.state then runnable else p.state;
      })
      (sym e)

pid-lock : (p : Proc) → (lock p).pid ≡ p.pid
unfolding lock
pid-lock p = refl

module _ (pid : ℕ) (t : Table) (q : Quiet t) where
  -- One round at an entry with another pid.
  kill_loop-skip :
      (n i : ℕ) → (t.procs i).pid ≢ pid → kill_loop pid (suc n) i t ≡ kill_loop pid n (i + 1) t
  unfolding kill_loop
  kill_loop-skip n i ne =
      let other : ((lock (t.procs i)).pid == pid) ≡ false = ground (arith, pid-lock (t.procs i)) in
      rw (acquire-ok i t (q i), procs-put_self, other, release-lock i t (q i))

  kill_loop-hit :
      (n i : ℕ)
      → (t.procs i).pid ≡ pid
      → kill_loop pid (suc n) i t ≡ ok (true, put i (kill_one (t.procs i)) t)
  unfolding kill_loop
  kill_loop-hit n i e =
      let p = t.procs i in
      let hit : ((lock p).pid == pid) ≡ true = ground (arith, pid-lock p) in
      rw (
        acquire-ok i t (q i),
        procs-put_self,
        hit,
        put-put,
        release-put i (kill_one (lock p)) t (kill_one-locked (lock p) ∙ locked-lock p),
        unlock-kill_one p (q i),
      )

  kill_loop-found :
      (n i j : ℕ)
      → i ≤ j
      → j < i + n
      → (t.procs j).pid ≡ pid
      → ((k : ℕ) → i ≤ k → k < j → (t.procs k).pid ≢ pid)
      → kill_loop pid n i t ≡ ok (true, put j (kill_one (t.procs j)) t)
  kill_loop-found zero i j lo hi e first = absurd (omega arith)
  kill_loop-found (suc n) i j lo hi e first = elim (Bool-cases (i == j)) [
    | inl here ↦ let at : i ≡ j = ground arith in rw (← at) (kill_loop-hit n i (rw at e))
    | inr later ↦
        let below : i < j = ground arith in
        kill_loop-skip n i (first i (omega arith) below)
        ∙ kill_loop-found n (i + 1) j (omega arith) (omega arith) e
            (λ k lo' hi'. first k (omega arith) hi')
  ]

  kill_loop-missing :
      (n i : ℕ)
      → ((k : ℕ) → i ≤ k → k < i + n → (t.procs k).pid ≢ pid)
      → kill_loop pid n i t ≡ ok (false, t)
  unfolding kill_loop
  kill_loop-missing zero i none_here = refl
  kill_loop-missing (suc n) i none_here =
      kill_loop-skip n i (none_here i (omega arith) (omega arith))
      ∙ kill_loop-missing n (i + 1) (λ k lo hi. none_here k (omega arith) (omega arith))

-- With no entry locked `kill` returns: if entries carry the pid, it has marked the first of them as
-- killed, made it runnable if it slept, and changed nothing else; if none does, it fails and
-- changes nothing.
pub kill_lem :
    (pid : ℕ) (t : Table)
    → Quiet t
    → ((j : ℕ)
        → j < nproc
        → (t.procs j).pid ≡ pid
        → ((k : ℕ) → k < j → (t.procs k).pid ≢ pid)
        → kill pid t ≡ ok (true, put j (kill_one (t.procs j)) t))
      × (((k : ℕ) → k < nproc → (t.procs k).pid ≢ pid) → kill pid t ≡ ok (false, t))
unfolding kill
kill_lem pid t q = (
  λ j lt e first.
      kill_loop-found pid t q nproc 0 j (omega arith) (omega arith) e (λ k _ hi. first k hi),
  λ missing. kill_loop-missing pid t q nproc 0 (λ k _ hi. missing k (omega arith)),
)
