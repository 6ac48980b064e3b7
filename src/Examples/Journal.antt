-- ===== src/Examples/Journal.antt =====
-- kernel/log.c at concrete inputs: a log at blocks 2 to 32 of the disk.
use proj.Common.{
  Bool, ℕ, ◌<◌, ◌≡◌, refl, false, List, [], ◌∷◌, ◌++◌, take, ok, arith, leb, if◌then◌else◌,
}
use proj.Log.{
  Log, Block, Blocks, Event, update, bpin, commit, begin_op, end_op_start, log_write, maxopblocks,
}
use proj.Log.Events.{replay}
use proj.Log.Recovery.{Data}
use proj.Log.Phases.{rebooted}
use proj.Log.Crash.{CanCommit, commit_atomic}
use proj.Log.Reserve.{State, Reach, start, next, begin, reserved}

abbrev zeros : Blocks
zeros a w = 0

abbrev sevens : Block
sevens w = 7

-- One transaction in progress, and no block logged.
abbrev opened : Log
opened = record {
  start = 2;
  size = 31;
  outstanding = 1;
  committing = false;
  lh = [];
  buf = zeros;
  refcnt = λ _. 0;
  out = [];
}

-- Block 50 is logged.
abbrev written : Log
written = bpin 50 (record opened { lh = 50 ∷ [] })

log_write_50 : log_write 50 opened ≡ ok written
unfolding log_write
log_write_50 = refl

abbrev ready : Log
ready = record written { buf = update zeros 50 sevens }

ready-CanCommit : CanCommit ready zeros
ready-CanCommit = record {
  room = omega arith;
  logged = (refl, tt);
  clear = refl;
  same = λ a h. ground arith;
}

commit_example :
    (es : List Event) × ((commit ready).out ≡ [] ++ es)
    × ((k a : ℕ)
        → Data 2 31 a
        → rebooted 2 31 (replay (take k es) zeros) a ≡ (if leb k 1 then zeros a else ready.buf a))
commit_example = commit_atomic ready zeros ready-CanCommit

abbrev at_rest : Log
at_rest = record opened { outstanding = 0 }

abbrev begun : State
begun = record { log = opened; budgets = maxopblocks ∷ [] }

begun-Reach : Reach begun
unfolding begin_op
begun-Reach = next (start at_rest refl refl refl (omega arith)) (begin refl)

reserved_example :
    ((b : ℕ) → 0 < 10 → (l : Log) × (log_write b opened ≡ ok l))
    × (opened.committing ≡ false)
    × ((do_commit : Bool) × (l : Log) × (end_op_start opened ≡ ok (do_commit, l)))
reserved_example = reserved {s = begun} 0 10 begun-Reach refl
