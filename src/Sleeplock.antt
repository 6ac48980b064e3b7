-- ===== src/Sleeplock.antt =====
-- kernel/sleeplock.c: sleep locks. Each function holds `lk->lk` but where it sleeps, so that it is
-- one transition: `acquiresleep` that finds the lock taken sleeps on it, and tries again when
-- woken.
use proj.Common.{ℕ, Bool, true, false, ◌&&◌, Run, ok, blocked, ◌==◌, if◌then◌else◌}

pub record Sleeplock : Type 0 where
  pub locked : Bool
  pub pid : ℕ

unfoldable pub initsleeplock : Sleeplock
initsleeplock = record { locked = false; pid = 0 }

unfoldable pub acquiresleep : ℕ → Sleeplock → Run Sleeplock
acquiresleep pid lk = if lk.locked then blocked else ok (record { locked = true; pid = pid })

-- It wakes whoever sleeps on the lock.
unfoldable pub releasesleep : Sleeplock → Sleeplock
releasesleep lk = record { locked = false; pid = 0 }

unfoldable pub holdingsleep : ℕ → Sleeplock → Bool
holdingsleep pid lk = lk.locked && (lk.pid == pid)
