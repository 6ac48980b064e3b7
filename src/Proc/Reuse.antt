-- ===== src/Proc/Reuse.antt =====
-- kernel/proc.c: what an entry of the table keeps from its last process to its next.
use proj.Common.{
  ℕ, ◌<◌, ◌≡◌, ◌≢◌, refl, ap, ◌∙◌, true, [], ◌∷◌, ◌++◌, some, ok, arith, ◌==◌, if◌then◌else◌,
  Bool-cases, inl, inr,
}
use proj.Proc.{Proc, Table, kfree, proc_freepagetable, put, lock, is_unused}
use proj.Proc.Alloc.{
  allocproc, advance, found_proc, set_pagetable, freeproc, freed_pages, freed_table,
}
use proj.Proc.Sched.{kill, kill_one}
use proj.Proc.Locks.{Quiet, Quiet-put, procs-put, procs-put_self}
use proj.Proc.Find.{FirstUnused, allocated, allocproc-allocated}
use proj.Proc.Kill.{kill_lem}

-- Locks and states are the same.
abbrev pub SameUse : Table → Table → Type 0
SameUse t t' =
    (k : ℕ) → ((t'.procs k).locked ≡ (t.procs k).locked) × ((t'.procs k).state ≡ (t.procs k).state)

pub FirstUnused-SameUse : {t t' : Table} {j : ℕ} → SameUse t t' → FirstUnused t j → FirstUnused t' j
FirstUnused-SameUse {j} s f = record {
  in_table = f.in_table;
  is_free = ap is_unused (s j).1 ∙ f.is_free;
  before = λ k lt. ap is_unused (s k).1 ∙ f.before k lt;
  unlocked = λ k lt. (s k).0 ∙ f.unlocked k lt;
}

pub SameUse-put :
    (i : ℕ) (p : Proc) (t : Table)
    → p.locked ≡ (t.procs i).locked
    → p.state ≡ (t.procs i).state
    → SameUse t (put i p t)
SameUse-put i p t l s k = elim (Bool-cases (k == i)) [
  | inl at ↦ let e : k ≡ i = ground arith in rw (e, procs-put_self) (l, s)
  | inr off ↦ rw (procs-put, off) (refl, refl)
]

kill_one_unused :
    (p : Proc)
    → is_unused p.state ≡ true
    → ((kill_one p).locked ≡ p.locked)
      × ((kill_one p).state ≡ p.state)
      × ((kill_one p).killed ≡ true)
unfolding kill_one
kill_one_unused p e = (refl, ground arith, refl)

killed-allocated : (a b c : ℕ) (p : Proc) → (allocated a b c p).killed ≡ p.killed
unfolding set_pagetable found_proc lock
killed-allocated a b c p = refl

-- Where an unused entry with pid 0 comes before any other with pid 0, `kill(0)` succeeds and marks
-- it, and the process that `allocproc` next puts there is born killed.
pub kill_zero :
    (trapframe pagetable j : ℕ) (t : Table)
    → Quiet t
    → FirstUnused t j
    → (t.procs j).pid ≡ 0
    → ((k : ℕ) → k < j → (t.procs k).pid ≢ 0)
    → trapframe ≢ 0
    → pagetable ≢ 0
    → (t₁ t₂ : Table) × (kill 0 t ≡ ok (true, t₁))
      × (allocproc trapframe pagetable t₁ ≡ ok (some j, t₂))
      × ((t₂.procs j).killed ≡ true)
kill_zero trapframe pagetable j t q f e first h k =
    let p = t.procs j in
    let (l, s, dead) = kill_one_unused p f.is_free in
    let t₁ = put j (kill_one p) t in
    (
      t₁,
      put j (allocated trapframe pagetable t₁.nextpid (t₁.procs j)) (advance t₁),
      (kill_lem 0 t q).0 j f.in_table e first,
      allocproc-allocated trapframe pagetable j t₁
          (FirstUnused-SameUse (SameUse-put j (kill_one p) t l s) f)
          (Quiet-put j (kill_one p) t (l ∙ q j) q j) h k,
      ap (λ (r : Proc). r.killed)
            (procs-put_self j (allocated trapframe pagetable t₁.nextpid (t₁.procs j)) (advance t₁))
          ∙ killed-allocated trapframe pagetable t₁.nextpid (t₁.procs j)
          ∙ ap (λ (r : Proc). r.killed) (procs-put_self j (kill_one p) t)
          ∙ dead,
    )

freed-allocated :
    (trapframe pagetable pid : ℕ) (p : Proc)
    → trapframe ≢ 0
    → pagetable ≢ 0
    → freed_pages (allocated trapframe pagetable pid p)
        ++ freed_table (allocated trapframe pagetable pid p)
      ≡ kfree trapframe ∷ (if p.isthread then [] else proc_freepagetable pagetable p.sz ∷ [])
unfolding set_pagetable found_proc lock
freed-allocated trapframe pagetable pid p h k = ground arith

-- What `freeproc` gives back of a process that `allocproc` has just set up: its trapframe page; and
-- its page table if the entry is not marked as a thread's. The mark is the one that the entry had
-- before: `allocproc` leaves it, and so in an entry with the mark the page table is not freed.
pub freeproc-allocproc :
    (trapframe pagetable j : ℕ) (t : Table)
    → Quiet t
    → FirstUnused t j
    → trapframe ≢ 0
    → pagetable ≢ 0
    → (t' : Table) × (allocproc trapframe pagetable t ≡ ok (some j, t'))
      × ((freeproc j t').out
          ≡ t'.out
            ++ (kfree trapframe
                ∷ (if (t.procs j).isthread
                    then []
                    else proc_freepagetable pagetable (t.procs j).sz ∷ [])))
unfolding freeproc
freeproc-allocproc trapframe pagetable j t q f h k =
    let p = t.procs j in
    let a = allocated trapframe pagetable t.nextpid p in
    (
      put j a (advance t),
      allocproc-allocated trapframe pagetable j t f (q j) h k,
      ap (λ r. (put j a (advance t)).out ++ (freed_pages r ++ freed_table r))
            (procs-put_self j a (advance t))
          ∙ ap (λ es. (put j a (advance t)).out ++ es)
              (freed-allocated trapframe pagetable t.nextpid p h k),
    )
