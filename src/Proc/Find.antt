-- ===== src/Proc/Find.antt =====
-- kernel/proc.c: `allocproc` takes the first unused entry of the table.
use proj.Common.{
  panic, ℕ, zero, suc, ◌+◌, ◌≤◌, ◌<◌, ◌≡◌, ◌≢◌, refl, ap, ◌∙◌, true, false, none, some, ok, blocked,
  arith, ◌==◌, Bool-cases, inl, inr,
}
use proj.Proc.{unheld, this_cpu, other_cpu, Proc, Table, nproc, put, lock, acquire, is_unused}
use proj.Proc.Alloc.{find_unused, set_up, allocproc, advance, found_proc, set_pagetable}
use proj.Proc.Locks.{acquire-ok, release-lock, procs-put_self, put-put}

state-lock : (p : Proc) → (lock p).state ≡ p.state
unfolding lock
state-lock p = refl

-- Entry `j` is the first unused one, and those before it are not locked.
pub record FirstUnused (t : Table) (j : ℕ) : Type 0 where
  pub in_table : j < nproc
  pub is_free : is_unused (t.procs j).state ≡ true
  pub before : (k : ℕ) → k < j → is_unused (t.procs k).state ≡ false
  pub unlocked : (k : ℕ) → k < j → (t.procs k).locked ≡ unheld

module _ (t : Table) where
  find_unused-skip :
      (n i : ℕ)
      → (t.procs i).locked ≡ unheld
      → is_unused (t.procs i).state ≡ false
      → find_unused (suc n) i t ≡ find_unused n (i + 1) t
  unfolding find_unused
  find_unused-skip n i free busy =
      let other : is_unused (lock (t.procs i)).state ≡ false = rw (state-lock (t.procs i)) busy in
      rw (acquire-ok i t free, procs-put_self, other, release-lock i t free)

  -- The search comes to the first unused entry.
  find_unused-reach :
      (n i j : ℕ)
      → i ≤ j
      → j < i + n
      → FirstUnused t j
      → (m : ℕ) × (find_unused n i t ≡ find_unused (suc m) j t)
  find_unused-reach zero i j lo hi f = absurd (omega arith)
  find_unused-reach (suc n) i j lo hi f = elim (Bool-cases (i == j)) [
    | inl here ↦ (n, ap (λ k. find_unused (suc n) k t) (ground arith))
    | inr later ↦
        let below : i < j = ground arith in
        let (m, e) = find_unused-reach n (i + 1) j (omega arith) (omega arith) f in
        (m, find_unused-skip n i (f.unlocked i below) (f.before i below) ∙ e)
  ]

  find_unused-hit :
      (n j : ℕ)
      → (t.procs j).locked ≡ unheld
      → is_unused (t.procs j).state ≡ true
      → find_unused (suc n) j t ≡ ok (some j, put j (lock (t.procs j)) t)
  unfolding find_unused
  find_unused-hit n j free e =
      let hit : is_unused (lock (t.procs j)).state ≡ true = rw (state-lock (t.procs j)) e in
      rw (acquire-ok j t free, procs-put_self, hit)

  find_unused-panic : (n j : ℕ) → (t.procs j).locked ≡ this_cpu → find_unused (suc n) j t ≡ panic
  unfolding find_unused acquire
  find_unused-panic n j e = rw e

  find_unused-spins : (n j : ℕ) → (t.procs j).locked ≡ other_cpu → find_unused (suc n) j t ≡ blocked
  unfolding find_unused acquire
  find_unused-spins n j e = rw e

  find_unused-none :
      (n i : ℕ)
      → ((k : ℕ)
          → i ≤ k
          → k < i + n
          → (is_unused (t.procs k).state ≡ false) × ((t.procs k).locked ≡ unheld))
      → find_unused n i t ≡ ok (none, t)
  unfolding find_unused
  find_unused-none zero i h = refl
  find_unused-none (suc n) i h =
      let (busy, free) = h i (omega arith) (omega arith) in
      find_unused-skip n i free busy
      ∙ find_unused-none n (i + 1) (λ k lo hi. h k (omega arith) (omega arith))

-- The entry that `allocproc` hands out: it keeps what `killed`, `isthread` and the rest held.
abbrev pub allocated : ℕ → ℕ → ℕ → Proc → Proc
allocated trapframe pagetable pid p = set_pagetable pagetable (found_proc pid trapframe (lock p))

advance-put : (i : ℕ) (p : Proc) (t : Table) → advance (put i p t) ≡ put i p (advance t)
unfolding advance put
advance-put i p t = refl

pub procs-advance : (t : Table) → (advance t).procs ≡ t.procs
unfolding advance
procs-advance t = refl

nextpid-put : (i : ℕ) (p : Proc) (t : Table) → (put i p t).nextpid ≡ t.nextpid
unfolding put
nextpid-put i p t = refl

set_up-ok :
    (trapframe pagetable j : ℕ) (t : Table)
    → trapframe ≢ 0
    → pagetable ≢ 0
    → set_up trapframe pagetable j (put j (lock (t.procs j)) t)
      ≡ ok (some j, put j (allocated trapframe pagetable t.nextpid (t.procs j)) (advance t))
unfolding set_up
set_up-ok trapframe pagetable j t h k =
    let has_frame : (trapframe == 0) ≡ false = ground arith in
    let has_table : (pagetable == 0) ≡ false = ground arith in
    rw (has_frame, has_table) (simp (advance-put, nextpid-put, procs-put_self, put-put))

pub allocproc-allocated :
    (trapframe pagetable j : ℕ) (t : Table)
    → FirstUnused t j
    → (t.procs j).locked ≡ unheld
    → trapframe ≢ 0
    → pagetable ≢ 0
    → allocproc trapframe pagetable t
      ≡ ok (some j, put j (allocated trapframe pagetable t.nextpid (t.procs j)) (advance t))
unfolding allocproc
allocproc-allocated trapframe pagetable j t f free h k =
    let (m, e) = find_unused-reach t nproc 0 j (omega arith) (omega (arith, f.in_table)) f in
    rw (e, find_unused-hit t m j free f.is_free) (set_up-ok trapframe pagetable j t h k)

-- With the first unused entry locked by its own CPU `allocproc` panics.
pub allocproc-panic :
    (trapframe pagetable j : ℕ) (t : Table)
    → FirstUnused t j
    → (t.procs j).locked ≡ this_cpu
    → allocproc trapframe pagetable t ≡ panic
unfolding allocproc
allocproc-panic trapframe pagetable j t f e =
    let (m, e') = find_unused-reach t nproc 0 j (omega arith) (omega (arith, f.in_table)) f in
    rw (e', find_unused-panic t m j e)

-- With the first unused entry locked by another CPU `allocproc` spins.
pub allocproc-spins :
    (trapframe pagetable j : ℕ) (t : Table)
    → FirstUnused t j
    → (t.procs j).locked ≡ other_cpu
    → allocproc trapframe pagetable t ≡ blocked
unfolding allocproc
allocproc-spins trapframe pagetable j t f e =
    let (m, e') = find_unused-reach t nproc 0 j (omega arith) (omega (arith, f.in_table)) f in
    rw (e', find_unused-spins t m j e)
