-- ===== src/Proc/Stuck.antt =====
-- kernel/proc.c: the lock that a failed `mythread_create` leaves behind.
use proj.Common.{
  panic, ℕ, ◌≡◌, ◌≢◌, refl, ap, ◌∙◌, Bool, true, false, ok, blocked, arith, ◌==◌, ==_refl,
  if◌then◌else◌, Bool-cases, inl, inr,
}
use proj.Proc.{Holder, unheld, this_cpu, other_cpu, Proc, Table, put, lock, is_unused, unused}
use proj.Proc.Alloc.{allocproc, advance, found_proc, set_pagetable, freeproc, cleared}
use proj.Proc.Thread.{mythread_create, join_family, has_family, max_families, set_fid, set_isthread}
use proj.Proc.Locks.{Quiet, procs-put_self, procs-put_ne}
use proj.Proc.Find.{
  FirstUnused, allocated, allocproc-allocated, allocproc-panic, allocproc-spins, procs-advance,
}
use proj.Proc.Reuse.{SameUse, FirstUnused-SameUse, SameUse-put}

SameUse-trans : (t u v : Table) → SameUse t u → SameUse u v → SameUse t v
SameUse-trans t u v a b k = ((b k).0 ∙ (a k).0, (b k).1 ∙ (a k).1)

set_fid_lem :
    (fid : ℕ) (p : Proc) → ((set_fid fid p).locked ≡ p.locked) × ((set_fid fid p).state ≡ p.state)
unfolding set_fid
set_fid_lem fid p = (refl, refl)

set_isthread_lem :
    (b : Bool) (p : Proc)
    → ((set_isthread b p).locked ≡ p.locked) × ((set_isthread b p).state ≡ p.state)
unfolding set_isthread
set_isthread_lem b p = (refl, refl)

SameUse-set_fid : (i fid : ℕ) (t : Table) → SameUse t (put i (set_fid fid (t.procs i)) t)
SameUse-set_fid i fid t =
    let (l, s) = set_fid_lem fid (t.procs i) in SameUse-put i (set_fid fid (t.procs i)) t l s

SameUse-set_isthread :
    (i : ℕ) (b : Bool) (t : Table) → SameUse t (put i (set_isthread b (t.procs i)) t)
SameUse-set_isthread i b t =
    let (l, s) = set_isthread_lem b (t.procs i) in SameUse-put i (set_isthread b (t.procs i)) t l s

join_family-SameUse : (me : ℕ) (t : Table) → SameUse t (join_family me t)
unfolding join_family
join_family-SameUse me t k = elim (Bool-cases (has_family (t.procs me).pid max_families 0 t)) [
  | inl old ↦ rw old (refl, refl)
  | inr new ↦ rw new (SameUse-set_fid me t.curr_fid t k)
]

cleared_lem : (p : Proc) → ((cleared p).locked ≡ p.locked) × ((cleared p).state ≡ unused)
unfolding cleared
cleared_lem p = (refl, refl)

procs-freeproc :
    (i k : ℕ) (t : Table)
    → (freeproc i t).procs k ≡ (if k == i then cleared (t.procs i) else t.procs k)
unfolding freeproc put
procs-freeproc i k t = refl

allocated-locked : (a b c : ℕ) (p : Proc) → (allocated a b c p).locked ≡ this_cpu
unfolding set_pagetable found_proc lock
allocated-locked a b c p = refl

-- The entry is free again but locked.
freeproc-FirstUnused :
    (j : ℕ) (t u : Table)
    → FirstUnused t j
    → ((k : ℕ)
        → k ≢ j
        → ((u.procs k).locked ≡ (t.procs k).locked) × ((u.procs k).state ≡ (t.procs k).state))
    → FirstUnused (freeproc j u) j
freeproc-FirstUnused j t u f same = record {
  in_table = f.in_table;
  is_free = rw (procs-freeproc, ==_refl j) (ap is_unused (cleared_lem (u.procs j)).1);
  before = λ k lt.
      let off : (k == j) ≡ false = ground arith in
      rw (procs-freeproc, off)
        (ap is_unused (same k (λ e. absurd (omega arith))).1 ∙ f.before k lt);
  unlocked = λ k lt.
      let off : (k == j) ≡ false = ground arith in
      rw (procs-freeproc, off) ((same k (λ e. absurd (omega arith))).0 ∙ f.unlocked k lt);
}

-- The lock as another CPU sees it.
abbrev pub swapped : Holder → Holder
swapped unheld = unheld
swapped this_cpu = other_cpu
swapped other_cpu = this_cpu

-- The table as a CPU sees it whose locks are other than those of the one that ran.
abbrev pub elsewhere : Table → Table
elsewhere t = record t { procs = λ i. record (t.procs i) { locked = swapped (t.procs i).locked } }

FirstUnused-elsewhere : {t : Table} {j : ℕ} → FirstUnused t j → FirstUnused (elsewhere t) j
FirstUnused-elsewhere f = record {
  in_table = f.in_table;
  is_free = f.is_free;
  before = f.before;
  unlocked = λ k lt. ap swapped (f.unlocked k lt);
}

-- With no entry locked and memory for the trapframe and the page table of a new entry, but none for
-- the stack of the thread, `mythread_create` fails and leaves the lock of the entry that it took,
-- which is unused again, held: if the next call is `allocproc`, it panics on the CPU that holds the
-- lock, and spins on another.
pub mythread_create_stuck :
    (me arg1 arg2 trapframe pagetable trapframe' pagetable' j : ℕ) (t : Table)
    → Quiet t
    → FirstUnused t j
    → trapframe ≢ 0
    → pagetable ≢ 0
    → (t' : Table) × (mythread_create me arg1 arg2 trapframe pagetable true 0 t ≡ ok (false, t'))
      × ((t'.procs j).locked ≡ this_cpu)
      × (allocproc trapframe' pagetable' t' ≡ panic)
      × (allocproc trapframe' pagetable' (elsewhere t') ≡ blocked)
unfolding mythread_create
mythread_create_stuck me arg1 arg2 trapframe pagetable trapframe' pagetable' j t q f h k =
    let t₁ = put me (set_isthread true (t.procs me)) t in
    let s₁ = SameUse-set_isthread me true t in
    let f₁ = FirstUnused-SameUse s₁ f in
    let a = allocated trapframe pagetable t₁.nextpid (t₁.procs j) in
    let t₂ = put j a (advance t₁) in
    let t₃ = put j (set_isthread true (t₂.procs j)) t₂ in
    let t₄ = join_family me t₃ in
    let t₅ = put j (set_fid (t₄.procs me).fid (t₄.procs j)) t₄ in
    let same : SameUse t₂ t₅ = SameUse-trans t₂ t₃ t₅ (SameUse-set_isthread j true t₂) (
      SameUse-trans t₃ t₄ t₅ (join_family-SameUse me t₃)
        (SameUse-set_fid j (t₄.procs me).fid t₄)) in
    let held : (t₅.procs j).locked ≡ this_cpu =
      (same j).0
      ∙ ap (λ (r : Proc). r.locked) (procs-put_self j a (advance t₁))
      ∙ allocated-locked trapframe pagetable t₁.nextpid (t₁.procs j) in
    let stuck : ((freeproc j t₅).procs j).locked ≡ this_cpu =
      rw (procs-freeproc, ==_refl j) ((cleared_lem (t₅.procs j)).0 ∙ held) in
    let free_again : FirstUnused (freeproc j t₅) j = freeproc-FirstUnused j t₁ t₅ f₁ (λ i off.
      let e : t₂.procs i ≡ t₁.procs i =
        procs-put_ne j i a (advance t₁) off ∙ ap (λ (g : ℕ → Proc). g i) (procs-advance t₁) in
      ((same i).0 ∙ ap (λ (r : Proc). r.locked) e, (same i).1 ∙ ap (λ (r : Proc). r.state) e)) in
    (
      freeproc j t₅,
      rw (allocproc-allocated trapframe pagetable j t₁ f₁ ((s₁ j).0 ∙ q j) h k),
      stuck,
      allocproc-panic trapframe' pagetable' j (freeproc j t₅) free_again stuck,
      allocproc-spins trapframe' pagetable' j (elsewhere (freeproc j t₅))
          (FirstUnused-elsewhere free_again) (ap swapped stuck),
    )
