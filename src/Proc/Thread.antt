-- ===== src/Proc/Thread.antt =====
-- kernel/proc.c: `mythread_create` and `mythread_join`.
use proj.Common.{
  ℕ, zero, suc, ◌+◌, ◌-◌, ◌%◌, ◌^◌, Bool, true, false, not, none, some, Run, ok, ◌>>=◌, ◌==◌,
  if◌then◌else◌,
}
use proj.Proc.{Proc, runnable, nofile, Table, idup, put, emit, release, visit}
use proj.Proc.Alloc.{allocproc, freeproc}
use proj.Proc.Life.{dup_files, set_parent, wait, sleeps}

unfoldable pub set_isthread : Bool → Proc → Proc
set_isthread b p = record p { isthread = b }

unfoldable pub set_fid : ℕ → Proc → Proc
set_fid fid p = record p { fid = fid }

abbrev pub max_families : ℕ
max_families = 1024

-- Whether the pid stands among the `n` families from `i` on.
unfoldable pub has_family : ℕ → ℕ → ℕ → Table → Bool
has_family pid zero i t = false
has_family pid (suc n) i t = if t.families i == pid then true else has_family pid n (i + 1) t

-- The family of process `me`, which is new if its pid is not recorded.
unfoldable pub join_family : ℕ → Table → Table
unfolding has_family
join_family me t =
    let p = t.procs me in
    if has_family p.pid max_families 0 t then t else record (put me (set_fid t.curr_fid p) t) {
      families = λ i. if i == t.curr_fid then p.pid else t.families i;
      curr_fid = t.curr_fid + 1;
    }

-- What follows the allocation of the stack. The arrays are functions here: the source writes
-- `threads[currId]` and `families[currFid]` with no check against their size.
unfoldable pub start_thread : ℕ → ℕ → ℕ → ℕ → ℕ → Table → Run (Bool × Table)
start_thread me np arg1 arg2 newsize t₀ = do
  let q = t₀.procs np
  let frame = record q.frame { sp = newsize; epc = arg2; a0 = arg1; ra = 0 }
  let t₁ = put np (record q { sz = newsize; frame = frame }) t₀
  let t₂ = record t₁ {
    threads = λ i. if i == t₁.curr_id then np else t₁.threads i;
    curr_id = t₁.curr_id + 1;
    running = (t₁.running + 1) % 2 ^ 32;
  }
  let p = t₂.procs me
  let t₃ = emit (idup p.cwd) (dup_files nofile 0 p np t₂)
  let t₄ = put np (record (t₃.procs np) { cwd = p.cwd }) t₃
  t₅ ← release np t₄
  let t₆ = set_parent np me t₅
  t₇ ← visit np (λ r. record r { state = runnable }) t₆
  ok (true, t₇)

-- `mythread_create` by process `me`: `shared` says whether `copytable` succeeds, and `newsize` is
-- what `uvmalloc` returns. The result is true for 0 and false for -1.
unfoldable pub mythread_create : ℕ → ℕ → ℕ → ℕ → ℕ → Bool → ℕ → Table → Run (Bool × Table)
mythread_create me arg1 arg2 trapframe pagetable shared newsize t = do
  let t₁ = put me (set_isthread true (t.procs me)) t
  (found, t₂) ← allocproc trapframe pagetable t₁
  elim found [
    | none ↦ ok (false, t₂)
    | some np ↦
        let t₃ = put np (set_isthread true (t₂.procs np)) t₂ in
        let t₄ = join_family me t₃ in
        let t₅ = put np (set_fid (t₄.procs me).fid (t₄.procs np)) t₄ in
        if not shared
        then (release np (freeproc np t₅) >>= λ t'. ok (false, t'))
        else if newsize == 0
        then ok (false, freeproc np t₅)
        else start_thread me np arg1 arg2 newsize t₅
  ]

-- The loop of `mythread_join` over the `n` threads from `i` on.
unfoldable pub free_threads : ℕ → ℕ → Table → Table
free_threads zero i t = t
free_threads (suc n) i t =
    let j = t.threads i in
    free_threads n (i + 1) (freeproc j (put j (set_isthread false (t.procs j)) t))

-- `mythread_join` after its `wait` has returned.
unfoldable pub join_end : Table → Table
unfolding free_threads
join_end t =
    let left = (t.running + 2 ^ 32 - 1) % 2 ^ 32 in
    let t₁ = record t { running = left; joined = t.joined + 1 } in
    if left == 0
    then record (free_threads (t₁.curr_id - 1) 0 t₁) { curr_id = 0; joined = 0; curr_fid = 0 }
    else t₁

-- `mythread_join` up to its return (true) or its sleep in `wait`.
unfoldable pub mythread_join : ℕ → Table → Run (Bool × Table)
mythread_join me t =
    wait me true t >>= λ (e, t'). elim e [ sleeps ↦ ok (false, t') | _ ↦ ok (true, join_end t') ]
