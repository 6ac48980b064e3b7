-- ===== src/Proc/Life.antt =====
-- kernel/proc.c: `fork`, `exit`, `wait` and `reparent`.
use proj.Common.{
  ℕ, zero, suc, ◌+◌, Bool, true, false, Option, none, some, Run, ok, ◌>>=◌, ◌>>◌, panic_if, ◌==◌,
  if◌then◌else◌,
}
use proj.Proc.{
  Proc, runnable, zombie, is_zombie, no_chan, on_proc, nproc, nofile, Table, filedup, fileclose,
  idup, iput, put, emit, acquire, release, visit, is_me,
}
use proj.Proc.Alloc.{allocproc, freeproc}
use proj.Proc.Sched.{wakeup, sleep_begin, killed}

-- The loop over the open files of `p`, for the `n` descriptors from `fd` on.
unfoldable pub dup_files : ℕ → ℕ → Proc → ℕ → Table → Table
dup_files zero fd p np t = t
dup_files (suc n) fd p np t =
    let f = p.ofile fd in
    let q = t.procs np in
    dup_files n (fd + 1) p np (
      if f == 0
      then t
      else emit (filedup f) (put np (record q { ofile = λ d. if d == fd then f else q.ofile d }) t))

abbrev pub set_parent : ℕ → ℕ → Table → Table
set_parent i parent t = put i (record (t.procs i) { parent = some parent }) t

-- The child's side of `fork` once its memory is copied.
unfoldable pub fork_child : ℕ → ℕ → Table → Run (Option ℕ × Table)
unfolding dup_files
fork_child me np t₀ = do
  let p = t₀.procs me
  let child = t₀.procs np
  let t₁ = put np (record child { sz = p.sz; frame = record p.frame { a0 = 0 } }) t₀
  let t₂ = emit (idup p.cwd) (dup_files nofile 0 p np t₁)
  let t₃ = put np (record (t₂.procs np) { cwd = p.cwd }) t₂
  let pid = (t₃.procs np).pid
  t₄ ← release np t₃
  let t₅ = set_parent np me t₄
  t₆ ← visit np (λ q. record q { state = runnable }) t₅
  ok (some pid, t₆)

-- `fork` by process `me`; `copied` says whether `uvmcopy` succeeds. The result is the pid, `none`
-- for -1.
unfoldable pub fork : ℕ → ℕ → ℕ → Bool → Table → Run (Option ℕ × Table)
fork me trapframe pagetable copied t = allocproc trapframe pagetable t >>= λ (found, t').
    elim found [
      | none ↦ ok (none, t')
      | some np ↦
          if copied
          then fork_child me np t'
          else (release np (freeproc np t') >>= λ t''. ok (none, t''))
    ]

-- `reparent` for the `n` entries from `i` on.
unfoldable pub reparent_loop : Option ℕ → ℕ → ℕ → ℕ → Table → Run Table
reparent_loop me p zero i t = ok t
reparent_loop me p (suc n) i t =
    (if is_me (t.procs i).parent p
      then wakeup me (on_proc t.initproc) (set_parent i t.initproc t)
      else ok t)
    >>= reparent_loop me p n (i + 1)

unfoldable pub reparent : Option ℕ → ℕ → Table → Run Table
unfolding reparent_loop
reparent me p t = reparent_loop me p nproc 0 t

unfoldable pub close_files : ℕ → ℕ → ℕ → Table → Table
close_files zero fd me t = t
close_files (suc n) fd me t =
    let p = t.procs me in
    close_files n (fd + 1) me (
      if p.ofile fd == 0
      then t
      else put me (record p { ofile = λ d. if d == fd then 0 else p.ofile d })
          (emit (fileclose (p.ofile fd)) t))

abbrev wake_parent : ℕ → Table → Run Table
wake_parent me t = elim (t.procs me).parent [
  | none ↦ wakeup (some me) no_chan t
  | some q ↦ wakeup (some me) (on_proc q) t
]

-- `exit` up to the switch to the scheduler, which releases the lock of the process.
unfoldable pub exit : ℕ → ℕ → Table → Run Table
unfolding close_files
exit me status t = do
  panic_if (me == t.initproc)
  let t₁ = close_files nofile 0 me t
  let t₂ = emit (iput (t₁.procs me).cwd) t₁
  let t₃ = put me (record (t₂.procs me) { cwd = 0 }) t₂
  t₄ ← reparent (some me) me t₃
  t₅ ← wake_parent me t₄
  visit me (λ p. record p { xstate = status; state = zombie }) t₅

-- How a pass of `wait` over the table ends.
pub data WaitEnd : Type 0 where
  -- the pid of a child that has exited
  reaped : ℕ → WaitEnd
  -- -1
  failed : WaitEnd
  -- asleep until a child exits
  sleeps : WaitEnd

-- The search of `wait` among the `n` entries from `i` on: the end, if it found one, and whether
-- there are children. `copied` says whether the status could be copied out, if it was asked for.
unfoldable pub wait_loop : ℕ → Bool → ℕ → ℕ → Bool → Table → Run (Option WaitEnd × Bool × Table)
wait_loop me copied zero i havekids t = ok (none, havekids, t)
wait_loop me copied (suc n) i havekids t =
    let next = wait_loop me copied n (i + 1) in
    let child = acquire i t >>= λ t'.
    if is_zombie (t'.procs i).state
    then (if copied
        then (release i (freeproc i t') >>= λ t''. ok (some (reaped (t'.procs i).pid), true, t''))
        else (release i t' >>= λ t''. ok (some failed, true, t'')))
    else (release i t' >>= next true) in
    if is_me (t.procs i).parent me then child else next havekids t

-- One pass of `wait`, up to its return or its sleep.
unfoldable pub wait : ℕ → Bool → Table → Run (WaitEnd × Table)
unfolding wait_loop
wait me copied t = wait_loop me copied nproc 0 false t >>= λ (end, havekids, t'). elim end [
  | some e ↦ ok (e, t')
  | none ↦
      if havekids
      then (killed me t' >>= λ (k, t'').
          if k
          then ok (failed, t'')
          else (sleep_begin me (on_proc me) t'' >>= λ t₃. ok (sleeps, t₃)))
      else ok (failed, t')
]
