-- ===== src/Proc/Reap.antt =====
-- kernel/proc.c: what a pass of `wait` does.
use proj.Common.{
  ℕ, zero, suc, ◌+◌, ◌≤◌, ◌<◌, ◌≡◌, refl, sym, ap, ◌∙◌, Bool, true, false, not, ◌&&◌, ◌||◌, ◌++◌,
  none, some, Run, ok, fun_ext, arith, ◌==◌, ==_refl, if◌then◌else◌, Bool-cases, inl, inr,
}
use proj.Proc.{
  unheld, Proc, Table, nproc, put, lock, unlock, release, is_me, is_zombie, sleeping, on_proc,
}
use proj.Proc.Alloc.{freeproc, cleared, freed_pages, freed_table}
use proj.Proc.Sched.{killed, sleep_begin}
use proj.Proc.Life.{wait, wait_loop, reaped, failed, sleeps}
use proj.Proc.Locks.{Quiet, acquire-ok, release-lock, procs-put_self, visit-ok}

-- Entry `i` is a child of `me`, and it has exited.
abbrev pub exited_child : ℕ → Table → ℕ → Bool
exited_child me t i = is_me (t.procs i).parent me && is_zombie (t.procs i).state

-- Whether there is a child among the `n` entries from `i` on.
abbrev pub has_child : ℕ → ℕ → ℕ → Table → Bool
has_child me zero i t = false
has_child me (suc n) i t = is_me (t.procs i).parent me || has_child me n (i + 1) t

state-lock : (p : Proc) → (lock p).state ≡ p.state
unfolding lock
state-lock p = refl

pid-lock : (p : Proc) → (lock p).pid ≡ p.pid
unfolding lock
pid-lock p = refl

killed-lock : (p : Proc) → (lock p).killed ≡ p.killed
unfolding lock
killed-lock p = refl

-- An entry cleared under its lock.
unlock-cleared : (p : Proc) → p.locked ≡ unheld → unlock (cleared (lock p)) ≡ cleared p
unfolding cleared lock unlock
unlock-cleared p e = ap {B = Proc} (λ b. record (cleared p) { locked = b }) (sym e)

freed-lock :
    (p : Proc) → freed_pages (lock p) ++ freed_table (lock p) ≡ freed_pages p ++ freed_table p
unfolding lock
freed-lock p = refl

locked-cleared : (p : Proc) → (cleared p).locked ≡ p.locked
unfolding cleared
locked-cleared p = refl

release-freeproc :
    (i : ℕ) (t : Table)
    → (t.procs i).locked ≡ unheld
    → release i (freeproc i (put i (lock (t.procs i)) t)) ≡ ok (freeproc i t)
unfolding freeproc release put cleared lock unlock
release-freeproc i t free =
    let p = t.procs i in
    rw (==_refl i) (
      ap {B = Run Table}
        (λ f. ok (record t { procs = f; out = t.out ++ (freed_pages p ++ freed_table p) }))
        (fun_ext {A = ℕ} λ j. elim (Bool-cases (j == i)) [
          | inl here ↦ rw here (ap {B = Proc} (λ b. record (cleared p) { locked = b }) (sym free))
          | inr other ↦ rw other refl
        ]))

or_true : (b : Bool) → true ≡ (b || true)
or_true b = ground arith

or_false : (b : Bool) → b ≡ (b || false)
or_false b = ground arith

or_assoc : (a b c : Bool) → ((a || b) || c) ≡ (a || (b || c))
or_assoc a b c = ground arith

module _ (me : ℕ) (t : Table) (q : Quiet t) where
  -- One round at an entry that is no exited child.
  wait_loop-skip :
      (copied : Bool) (n i : ℕ) (havekids : Bool)
      → exited_child me t i ≡ false
      → wait_loop me copied (suc n) i havekids t
        ≡ wait_loop me copied n (i + 1) (havekids || is_me (t.procs i).parent me) t
  unfolding wait_loop
  wait_loop-skip copied n i havekids h = elim (Bool-cases (is_me (t.procs i).parent me)) [
    | inl child ↦
        let alive : is_zombie (lock (t.procs i)).state ≡ false =
          ground (arith, state-lock (t.procs i)) in
        rw (child, acquire-ok i t (q i), procs-put_self, alive, release-lock i t (q i))
          (ap (λ b. wait_loop me copied n (i + 1) b t) (or_true havekids))
    | inr other ↦ rw other (ap (λ b. wait_loop me copied n (i + 1) b t) (or_false havekids))
  ]

  wait_loop-hit :
      (n i : ℕ) (havekids : Bool)
      → exited_child me t i ≡ true
      → wait_loop me true (suc n) i havekids t
        ≡ ok (some (reaped (t.procs i).pid), true, freeproc i t)
  unfolding wait_loop
  wait_loop-hit n i havekids h =
      let child : is_me (t.procs i).parent me ≡ true = ground arith in
      let gone : is_zombie (lock (t.procs i)).state ≡ true =
        ground (arith, state-lock (t.procs i)) in
      rw (child, acquire-ok i t (q i), procs-put_self, gone, release-freeproc i t (q i), pid-lock)

  wait_loop-found :
      (n i j : ℕ) (havekids : Bool)
      → i ≤ j
      → j < i + n
      → exited_child me t j ≡ true
      → ((k : ℕ) → i ≤ k → k < j → exited_child me t k ≡ false)
      → wait_loop me true n i havekids t ≡ ok (some (reaped (t.procs j).pid), true, freeproc j t)
  wait_loop-found zero i j havekids lo hi e first = absurd (omega arith)
  wait_loop-found (suc n) i j havekids lo hi e first = elim (Bool-cases (i == j)) [
    | inl here ↦ let at : i ≡ j = ground arith in rw (← at) (wait_loop-hit n i havekids (rw at e))
    | inr later ↦
        let below : i < j = ground arith in
        wait_loop-skip true n i havekids (first i (omega arith) below)
        ∙ wait_loop-found n (i + 1) j _ (omega arith) (omega arith) e
            (λ k lo' hi'. first k (omega arith) hi')
  ]

  wait_loop-none :
      (copied : Bool) (n i : ℕ) (havekids : Bool)
      → ((k : ℕ) → i ≤ k → k < i + n → exited_child me t k ≡ false)
      → wait_loop me copied n i havekids t ≡ ok (none, havekids || has_child me n i t, t)
  unfolding wait_loop
  wait_loop-none copied zero i havekids h = ground arith
  wait_loop-none copied (suc n) i havekids h =
      wait_loop-skip copied n i havekids (h i (omega arith) (omega arith))
      ∙ wait_loop-none copied n (i + 1) (havekids || is_me (t.procs i).parent me)
          (λ k lo hi. h k (omega arith) (omega arith))
      ∙ ap (λ b. ok (none, b, t))
          (or_assoc havekids (is_me (t.procs i).parent me) (has_child me n (i + 1) t))

  killed-ok : killed me t ≡ ok ((t.procs me).killed, t)
  unfolding killed
  killed-ok = rw (acquire-ok me t (q me), procs-put_self, release-lock me t (q me), killed-lock)

-- Process `p` asleep until a child exits.
unfoldable pub waiting : ℕ → Proc → Proc
waiting me p = record p { chan = on_proc me; state = sleeping }

sleep_begin-waiting :
    (me : ℕ) (t : Table)
    → Quiet t
    → sleep_begin me (on_proc me) t ≡ ok (put me (waiting me (t.procs me)) t)
unfolding sleep_begin lock unlock waiting
sleep_begin-waiting me t q =
    visit-ok me (waiting me) t (q me) refl
    ∙ ap {B = Run Table}
        (λ b.
          ok (put me (record (t.procs me) { locked = b; chan = on_proc me; state = sleeping }) t))
        (sym (q me))

-- With no entry locked, and where the status of a child can be copied out, a pass of `wait` returns
-- the pid of the first child in the table that has exited, if there is one, and has freed its entry
-- and changed nothing else. Otherwise it returns -1 and changes nothing, if the process has no
-- child or is killed; or it sleeps on the process's own channel.
pub wait_lem :
    (me : ℕ) (t : Table)
    → Quiet t
    → ((j : ℕ)
        → j < nproc
        → exited_child me t j ≡ true
        → ((k : ℕ) → k < j → exited_child me t k ≡ false)
        → wait me true t ≡ ok (reaped (t.procs j).pid, freeproc j t))
      × (((k : ℕ) → k < nproc → exited_child me t k ≡ false)
          → wait me true t
            ≡ ok (
                if has_child me nproc 0 t && not (t.procs me).killed
                then (sleeps, put me (waiting me (t.procs me)) t)
                else (failed, t)))
unfolding wait
wait_lem me t q = (
  λ j lt e first.
      rw (
        wait_loop-found me t q nproc 0 j false (omega arith) (omega arith) e
          (λ k _ hi. first k hi)),
  λ missing.
      rw (wait_loop-none me t q true nproc 0 false (λ k _ hi. missing k (omega arith)))
        (elim (Bool-cases (has_child me nproc 0 t)) [
          | inl some_child ↦ elim (Bool-cases (t.procs me).killed) [
            | inl dead ↦ rw (some_child, killed-ok me t q) (simp dead)
            | inr alive ↦
                rw (some_child, killed-ok me t q) (simp (alive, sleep_begin-waiting me t q))
          ]
          | inr no_child ↦ rw no_child refl
        ]),
)
