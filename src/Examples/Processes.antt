-- ===== src/Examples/Processes.antt =====
-- kernel/proc.c at concrete inputs: tables of unused entries, and of entries asleep.
use proj.Common.{
  panic, pos, none, arith, ◌&&◌, not, if◌then◌else◌, ℕ, ◌+◌, ◌<◌, ◌≡◌, refl, true, false, some, [],
  ◌∷◌, ◌++◌, ok, blocked,
}
use proj.Proc.{
  unheld, this_cpu, Proc, ProcState, unused, sleeping, Chan, no_chan, on_addr, Table, kfree,
  proc_freepagetable, put, nproc,
}
use proj.Proc.Locks.{Quiet}
use proj.Proc.Alloc.{allocproc, freeproc}
use proj.Proc.Sched.{wakeup, kill}
use proj.Proc.Wakeup.{Woken, wakeup-Woken}
use proj.Proc.Find.{FirstUnused}
use proj.Proc.Thread.{mythread_create}
use proj.Proc.Reuse.{kill_zero, freeproc-allocproc}
use proj.Proc.Life.{wait, reaped, sleeps, failed}
use proj.Proc.Reap.{exited_child, has_child, waiting, wait_lem}
use proj.Proc.Grow.{mygrow, mygrow_loop, growarg, set_sz}
use proj.Proc.Family.{mygrow-other}
use proj.Kalloc.{Machine}
use proj.Proc.Stuck.{elsewhere, mythread_create_stuck}

abbrev blank : ProcState → Chan → ℕ → Proc
blank state chan pid = record {
  locked = unheld;
  state = state;
  chan = chan;
  killed = false;
  xstate = 0;
  pid = pid;
  isthread = false;
  fid = 0;
  parent = none;
  sz = 0;
  pagetable = 0;
  trapframe = 0;
  frame = record { epc = 0; ra = 0; sp = 0; a0 = 0; others = λ _. 0 };
  ofile = λ _. 0;
  cwd = 0;
}

abbrev table : (ℕ → Proc) → Table
table procs = record {
  procs = procs;
  nextpid = 1;
  initproc = 0;
  threads = λ _. 0;
  curr_id = 0;
  curr_fid = 0;
  families = λ _. 0;
  running = 0;
  joined = 0;
  out = [];
}

abbrev vacant : Table
vacant = table (λ _. blank unused no_chan 0)

-- Process `i` has pid `i` + 1 and sleeps on address `i`.
abbrev asleep : Table
asleep = table (λ i. blank sleeping (on_addr i) (i + 1))

vacant-Quiet : Quiet vacant
vacant-Quiet i = refl

asleep-Quiet : Quiet asleep
asleep-Quiet i = refl

vacant-FirstUnused : FirstUnused vacant 0
vacant-FirstUnused = record {
  in_table = omega arith;
  is_free = refl;
  before = λ k h. absurd (omega arith);
  unlocked = λ k h. refl;
}

wakeup_example :
    (t' : Table) × (wakeup (some 3) (on_addr 5) asleep ≡ ok t')
    × (t' ≡ record asleep { procs = t'.procs })
    × ((j : ℕ) → Woken (some 3) (on_addr 5) asleep t' j)
wakeup_example = wakeup-Woken (some 3) (on_addr 5) asleep asleep-Quiet

kill_zero_example :
    (t₁ t₂ : Table) × (kill 0 vacant ≡ ok (true, t₁))
    × (allocproc 4096 8192 t₁ ≡ ok (some 0, t₂))
    × ((t₂.procs 0).killed ≡ true)
kill_zero_example =
    kill_zero 4096 8192 0 vacant vacant-Quiet vacant-FirstUnused refl (λ k h. absurd (omega arith))
      (λ e. absurd (omega arith)) (λ e. absurd (omega arith))

freeproc_example :
    (t' : Table) × (allocproc 4096 8192 vacant ≡ ok (some 0, t'))
    × ((freeproc 0 t').out ≡ t'.out ++ (kfree 4096 ∷ proc_freepagetable 8192 0 ∷ []))
freeproc_example =
    freeproc-allocproc 4096 8192 0 vacant vacant-Quiet vacant-FirstUnused
      (λ e. absurd (omega arith)) (λ e. absurd (omega arith))

mythread_create_example :
    (t' : Table) × (mythread_create 1 10 20 4096 8192 true 0 vacant ≡ ok (false, t'))
    × ((t'.procs 0).locked ≡ this_cpu)
    × (allocproc 12288 16384 t' ≡ panic)
    × (allocproc 12288 16384 (elsewhere t') ≡ blocked)
mythread_create_example =
    mythread_create_stuck 1 10 20 4096 8192 12288 16384 0 vacant vacant-Quiet vacant-FirstUnused
      (λ e. absurd (omega arith)) (λ e. absurd (omega arith))

wait_example :
    ((j : ℕ)
      → j < nproc
      → exited_child 2 asleep j ≡ true
      → ((k : ℕ) → k < j → exited_child 2 asleep k ≡ false)
      → wait 2 true asleep ≡ ok (reaped (j + 1), freeproc j asleep))
    × (((k : ℕ) → k < nproc → exited_child 2 asleep k ≡ false)
        → wait 2 true asleep
          ≡ ok (
              if has_child 2 nproc 0 asleep && not false
              then (sleeps, put 2 (waiting 2 (asleep.procs 2)) asleep)
              else (failed, asleep)))
wait_example = wait_lem 2 asleep asleep-Quiet

abbrev no_memory : Machine
no_memory = record {
  cpu = record { noff = 0; intena = false; intr = true };
  lock = record { locked = false; cpu = none };
  freelist = 0;
  mem = λ _. 0;
}

-- Entry 5 is the only thread, and of the caller's family.
abbrev one_thread : Table
one_thread = record asleep { threads = λ _. 5; curr_id = 1 }

mygrow_ok :
    mygrow 1 0 (pos 0) 2 one_thread no_memory
    ≡ ok (put 5 (set_sz 0 (one_thread.procs 5)) one_thread, no_memory)
unfolding mygrow mygrow_loop growarg
mygrow_ok = refl

mygrow_example : (put 5 (set_sz 0 (one_thread.procs 5)) one_thread).procs 2 ≡ one_thread.procs 2
mygrow_example =
    mygrow-other 1 0 (pos 0) 2 2 one_thread no_memory
      (put 5 (set_sz 0 (one_thread.procs 5)) one_thread, no_memory) mygrow_ok
      (λ x h e. absurd (omega arith))
