-- ===== src/Proc/Sched.antt =====
-- kernel/proc.c: sleeping, waking, and what the scheduler does to an entry. Where a process gives
-- up the processor, the scheduler's thread releases the process's lock; where it is resumed, the
-- process releases the lock that the scheduler took.
use proj.Common.{
  ℕ, zero, suc, ◌+◌, Bool, true, false, not, ◌&&◌, Option, Run, ok, ◌>>=◌, ◌>>◌, panic_if, ◌==◌,
  if◌then◌else◌,
}
use proj.Proc.{
  Proc, sleeping, runnable, running, is_sleeping, is_runnable, is_running, Chan, no_chan, same_chan,
  nproc, Table, put, visit, acquire, release, is_me,
}

-- The body of `wakeup`'s loop.
unfoldable pub wake_one : Chan → Proc → Proc
wake_one chan p =
    if is_sleeping p.state && same_chan p.chan chan then record p { state = runnable } else p

-- `wakeup` for the `n` entries from `i` on; `me` is `myproc()`.
unfoldable pub wakeup_loop : Option ℕ → Chan → ℕ → ℕ → Table → Run Table
wakeup_loop me chan zero i t = ok t
wakeup_loop me chan (suc n) i t =
    (if is_me me i then ok t else visit i (wake_one chan) t) >>= wakeup_loop me chan n (i + 1)

unfoldable pub wakeup : Option ℕ → Chan → Table → Run Table
unfolding wakeup_loop
wakeup me chan t = wakeup_loop me chan nproc 0 t

-- The checks of `sched`: `p->lock` is held, it is the only lock, the state has changed, interrupts
-- are off.
unfoldable pub sched : Bool → ℕ → Bool → Proc → Run (Unit {0})
sched holding noff intr p = do
  panic_if (not holding)
  panic_if (not (noff == 1))
  panic_if (is_running p.state)
  panic_if intr
  ok tt

-- `sleep` up to the switch to the scheduler (the caller's lock is released), and from there on.
unfoldable pub sleep_begin : ℕ → Chan → Table → Run Table
sleep_begin me chan = visit me (λ p. record p { chan = chan; state = sleeping })

unfoldable pub sleep_end : ℕ → Table → Run Table
sleep_end me = visit me (λ p. record p { chan = no_chan })

unfoldable pub yield : ℕ → Table → Run Table
yield me = visit me (λ p. record p { state = runnable })

-- The scheduler's loop at one entry: whether it switches to the process.
unfoldable pub schedule : ℕ → Table → Run (Bool × Table)
schedule i t =
    let chosen = is_runnable (t.procs i).state in
    visit i (λ p. if is_runnable p.state then record p { state = running } else p) t >>= λ t'.
    ok (chosen, t')

-- The change that `kill` makes.
unfoldable pub kill_one : Proc → Proc
kill_one p = record p { killed = true; state = if is_sleeping p.state then runnable else p.state }

-- `kill` for the `n` entries from `i` on; whether it found the process.
unfoldable pub kill_loop : ℕ → ℕ → ℕ → Table → Run (Bool × Table)
kill_loop pid zero i t = ok (false, t)
kill_loop pid (suc n) i t = do
  t₁ ← acquire i t
  let found = release i (put i (kill_one (t₁.procs i)) t₁) >>= λ t'. ok (true, t')
  let rest = release i t₁ >>= kill_loop pid n (i + 1)
  if (t₁.procs i).pid == pid then found else rest

unfoldable pub kill : ℕ → Table → Run (Bool × Table)
unfolding kill_loop
kill pid t = kill_loop pid nproc 0 t

unfoldable pub setkilled : ℕ → Table → Run Table
setkilled i = visit i (λ p. record p { killed = true })

unfoldable pub killed : ℕ → Table → Run (Bool × Table)
killed i t = do t₁ ← acquire i t; let k = (t₁.procs i).killed; t₂ ← release i t₁; ok (k, t₂)
