-- ===== src/Proc.antt =====
-- kernel/proc.h: the process table, and the locks of its entries.
pub mod Locks
pub mod Alloc
pub mod Sched
pub mod Life
pub mod Thread
pub mod Wakeup
pub mod Kill
pub mod Find
pub mod Reuse
pub mod Stuck
pub mod Reap
pub mod Grow
pub mod Family
use proj.Common.{
  ℕ, zero, suc, ◌+◌, ◌-◌, ◌%◌, ◌^◌, Bool, true, false, not, ◌&&◌, Option, none, some, List, [], ◌∷◌,
  ◌++◌, Run, ok, panic, blocked, ◌>>=◌, ◌>>◌, panic_if, ltb, ◌==◌, if◌then◌else◌,
}

pub data ProcState : Type 0 where
  unused used sleeping runnable running zombie : ProcState

abbrev pub is_unused : ProcState → Bool
is_unused unused = true
is_unused _ = false

abbrev pub is_sleeping : ProcState → Bool
is_sleeping sleeping = true
is_sleeping _ = false

abbrev pub is_runnable : ProcState → Bool
is_runnable runnable = true
is_runnable _ = false

abbrev pub is_running : ProcState → Bool
is_running running = true
is_running _ = false

abbrev pub is_zombie : ProcState → Bool
is_zombie zombie = true
is_zombie _ = false

-- What a process sleeps on: nothing, a process (its parent waits on itself), or another address.
pub data Chan : Type 0 where
  no_chan : Chan
  on_proc : ℕ → Chan
  on_addr : ℕ → Chan

abbrev pub same_chan : Chan → Chan → Bool
same_chan no_chan no_chan = true
same_chan (on_proc i) (on_proc j) = i == j
same_chan (on_addr a) (on_addr b) = a == b
same_chan _ _ = false

abbrev pub nproc : ℕ
nproc = 64

abbrev pub nofile : ℕ
nofile = 16

-- The registers of a `struct trapframe` that the kernel sets, and the others.
pub record Frame : Type 0 where
  pub epc : ℕ
  pub ra : ℕ
  pub sp : ℕ
  pub a0 : ℕ
  pub others : ℕ → ℕ

-- Who holds a spin lock: nobody, the CPU that runs, or another one.
pub data Holder : Type 0 where
  unheld this_cpu other_cpu : Holder

-- `struct proc`. `locked` is its spin lock, a parent is an index of the table, and a pointer is an
-- address, 0 for none. The saved kernel context and the debugging name are left out.
pub record Proc : Type 0 where
  pub locked : Holder
  pub state : ProcState
  pub chan : Chan
  pub killed : Bool
  pub xstate : ℕ
  pub pid : ℕ
  pub isthread : Bool
  pub fid : ℕ
  pub parent : Option ℕ
  pub sz : ℕ
  pub pagetable : ℕ
  pub trapframe : ℕ
  pub frame : Frame
  pub ofile : ℕ → ℕ
  pub cwd : ℕ

-- What the process code asks of the allocator, of the page tables and of the file system.
pub data Event : Type 0 where
  kfree : ℕ → Event
  proc_freepagetable : ℕ → ℕ → Event
  filedup : ℕ → Event
  fileclose : ℕ → Event
  idup : ℕ → Event
  iput : ℕ → Event

-- The global variables of proc.c. `pid_lock` and `wait_lock` are held from the function that takes
-- them to its end or its sleep. `running` is the bit pattern of an int.
pub record Table : Type 0 where
  pub procs : ℕ → Proc
  pub nextpid : ℕ
  pub initproc : ℕ
  pub threads : ℕ → ℕ
  pub curr_id : ℕ
  pub curr_fid : ℕ
  pub families : ℕ → ℕ
  pub running : ℕ
  pub joined : ℕ
  pub out : List Event

unfoldable pub put : ℕ → Proc → Table → Table
put i p t = record t { procs = λ j. if j == i then p else t.procs j }

abbrev pub emit : Event → Table → Table
emit e t = record t { out = t.out ++ (e ∷ []) }

unfoldable pub lock : Proc → Proc
lock p = record p { locked = this_cpu }

unfoldable pub unlock : Proc → Proc
unlock p = record p { locked = unheld }

-- The code panics on a lock that its CPU holds already, and spins on one that another holds.
abbrev pub if_unheld : Holder → Table → Run Table
if_unheld unheld t = ok t
if_unheld this_cpu t = panic
if_unheld other_cpu t = blocked

-- `acquire(&p->lock)`
unfoldable pub acquire : ℕ → Table → Run Table
acquire i t = if_unheld (t.procs i).locked (put i (lock (t.procs i)) t)

-- `holding(&p->lock)`
abbrev pub is_this_cpu : Holder → Bool
is_this_cpu this_cpu = true
is_this_cpu _ = false

unfoldable pub release : ℕ → Table → Run Table
release i t = if is_this_cpu (t.procs i).locked then ok (put i (unlock (t.procs i)) t) else panic

-- `acquire(&p->lock)`, a change of `*p`, `release(&p->lock)`.
unfoldable pub visit : ℕ → (Proc → Proc) → Table → Run Table
visit i f t = acquire i t >>= λ t'. release i (put i (f (t'.procs i)) t')

abbrev pub is_me : Option ℕ → ℕ → Bool
is_me none i = false
is_me (some j) i = j == i
