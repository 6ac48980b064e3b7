-- ===== src/Proc/Alloc.antt =====
-- kernel/proc.c: `allocpid`, `allocproc` and `freeproc`. What `kalloc` and `proc_pagetable` return
-- is an argument, 0 for a failure.
use proj.Common.{
  ◌%◌, ◌^◌, ℕ, zero, suc, ◌+◌, false, not, ◌&&◌, Option, none, some, List, [], ◌∷◌, ◌++◌, Run, ok,
  ◌>>=◌, ◌==◌, if◌then◌else◌,
}
use proj.Proc.{
  Proc, unused, used, is_unused, no_chan, nproc, Table, Event, kfree, proc_freepagetable, put,
  acquire, release,
}

abbrev pub freed_pages : Proc → List Event
freed_pages p = if p.trapframe == 0 then [] else kfree p.trapframe ∷ []

abbrev pub freed_table : Proc → List Event
freed_table p =
    if not (p.pagetable == 0) && not p.isthread
    then proc_freepagetable p.pagetable p.sz ∷ []
    else []

-- The entry after `freeproc`: `isthread`, `fid`, the open files and the directory stay.
unfoldable pub cleared : Proc → Proc
cleared p = record p {
  trapframe = 0;
  pagetable = 0;
  sz = 0;
  pid = 0;
  parent = none;
  chan = no_chan;
  killed = false;
  xstate = 0;
  state = unused;
}

unfoldable pub freeproc : ℕ → Table → Table
freeproc i t =
    let p = t.procs i in
    record (put i (cleared p) t) { out = t.out ++ (freed_pages p ++ freed_table p) }

unfoldable pub advance : Table → Table
advance t = record t { nextpid = (t.nextpid + 1) % 2 ^ 32 }

abbrev pub allocpid : Table → ℕ × Table
allocpid t = (t.nextpid, advance t)

-- The search for an unused entry among the `n` from `i` on; its lock is held at the end.
unfoldable pub find_unused : ℕ → ℕ → Table → Run (Option ℕ × Table)
find_unused zero i t = ok (none, t)
find_unused (suc n) i t = do
  t' ← acquire i t
  let rest = release i t' >>= find_unused n (i + 1)
  if is_unused (t'.procs i).state then ok (some i, t') else rest

unfoldable pub found_proc : ℕ → ℕ → Proc → Proc
found_proc pid trapframe p = record p { pid = pid; state = used; trapframe = trapframe }

unfoldable pub set_pagetable : ℕ → Proc → Proc
set_pagetable pagetable p = record p { pagetable = pagetable }

abbrev give_up : ℕ → Table → Run (Option ℕ × Table)
give_up i t = release i (freeproc i t) >>= λ t'. ok (none, t')

-- The label `found`.
unfoldable pub set_up : ℕ → ℕ → ℕ → Table → Run (Option ℕ × Table)
set_up trapframe pagetable i t = do
  let (pid, t₁) = allocpid t
  let t₂ = put i (found_proc pid trapframe (t₁.procs i)) t₁
  let t₃ = put i (set_pagetable pagetable (t₂.procs i)) t₂
  if trapframe == 0 then give_up i t₂ else if pagetable == 0 then give_up i t₃ else ok (some i, t₃)

-- On success the entry's lock is held.
unfoldable pub allocproc : ℕ → ℕ → Table → Run (Option ℕ × Table)
allocproc trapframe pagetable t = find_unused nproc 0 t >>= λ (found, t'). elim found [
  | none ↦ ok (none, t')
  | some i ↦ set_up trapframe pagetable i t'
]
