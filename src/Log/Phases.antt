-- ===== src/Log/Phases.antt =====
-- kernel/log.c: the state of the disk in each phase of a commit, and what recovery makes of it.
use proj.Common.{
  ℕ, suc, ◌+◌, ◌≤◌, ◌≡◌, refl, ap, ◌∙◌, inl, inr, true, false, List, [], ◌∷◌, length, take, All,
  arith, ==_refl, if◌then◌else◌,
}
use proj.Log.{Block, Blocks, update, Event, Log, initlog, read_blocks}
use proj.Log.Header.{header, read-header}
use proj.Log.Events.{
  replay, replay-append, log_events, install_events, recover_events, listed, recover-emit,
}
use proj.Log.Recovery.{
  in_log, has, replay_other, writes-take, Logged, Data, log_events-writes, log_events-Logged,
  Logged-frame, install_events-writes, not_has, install_events-replay,
}

-- The machine starts again on disk `d`: memory is lost, `initlog` runs.
pub reboot : ℕ → ℕ → Blocks → Log
reboot start size d = initlog start size (record {
  start = 0;
  size = 0;
  outstanding = 0;
  committing = false;
  lh = [];
  buf = d;
  refcnt = λ _. 0;
  out = [];
})

-- The disk `d` after all that `reboot` writes to it.
pub rebooted : ℕ → ℕ → Blocks → Blocks
rebooted start size d = replay (reboot start size d).out d

pub length-log_events :
    (start tail : ℕ) (bs : List ℕ) (u : Blocks) → length (log_events start tail bs u) ≡ length bs
unfolding log_events
length-log_events start tail [] u = refl
length-log_events start tail (b ∷ bs) u = ap suc (length-log_events start (tail + 1) bs _)

module _ (start size : ℕ) where
  -- Recovery from a disk whose header lists `bs`, with their contents `v` in the log.
  rebooted-listed :
      (bs : List ℕ) (v d : Blocks) (a : ℕ)
      → listed (d start) ≡ bs
      → length bs + 1 ≤ size
      → All (Data start size) bs
      → Logged start 0 bs d v
      → Data start size a
      → rebooted start size d a ≡ (if has a bs then v a else d a)
  unfolding rebooted reboot initlog recover_events replay
  rebooted-listed bs v d a e room out lg data_block =
      rw (recover-emit, e, replay-append)
        (ground (arith, install_events-replay start size 0 a bs d v d (omega arith) out lg))

read_none : (h : Block) → read_blocks 0 0 h ≡ []
unfolding read_blocks
read_none h = refl

-- A disk with an empty list in its header: recovery leaves the data as it is.
pub rebooted-clear :
    (start size : ℕ) (d : Blocks) (a : ℕ)
    → d start 0 ≡ 0
    → 1 ≤ size
    → Data start size a
    → rebooted start size d a ≡ d a
rebooted-clear start size d a e room h =
    rebooted-listed start size [] d d a (rw e (read_none (d start))) room tt tt h

module _ (start size : ℕ) (bs : List ℕ) (u d : Blocks) where
  abbrev pub logged_disk : Blocks → Blocks
  logged_disk = replay (log_events start 0 bs u)

  abbrev pub head_block : Block
  head_block = header bs (logged_disk u start)

  abbrev pub moved : List Event
  moved = install_events start 0 bs (update (logged_disk u) start head_block)

  -- The disk after `j` of the moves.
  abbrev moving : ℕ → Blocks
  moving j = replay (take j moved) (update (logged_disk d) start head_block)

  module _ (room : length bs + 1 ≤ size) (out : All (Data start size) bs) where
    fits : 0 + length bs + 1 ≤ size
    fits = omega arith

    -- Before the header is written.
    pub rebooted_before :
        (k a : ℕ)
        → d start 0 ≡ 0
        → Data start size a
        → rebooted start size (replay (take k (log_events start 0 bs u)) d) a ≡ d a
    rebooted_before k a clear h =
        let ev = log_events start 0 bs u in
        let at_start : replay (take k ev) d start ≡ d start = replay_other start (take k ev) d (
          writes-take start k ev
            (log_events-writes start size 0 start bs u fits (inr (omega arith)))) in
        let at_data : replay (take k ev) d a ≡ d a =
          replay_other a (take k ev) d
            (writes-take a k ev (log_events-writes start size 0 a bs u fits (inl h))) in
        rebooted-clear start size (replay (take k ev) d) a (rw at_start clear) (omega arith) h
        ∙ at_data

    update-Logged : (e : Blocks) → Logged start 0 bs (update (logged_disk e) start head_block) u
    update-Logged e =
        Logged-frame start size 0 bs (logged_disk e) (update (logged_disk e) start head_block) u
          fits (λ a lo hi. ground arith)
          (log_events-Logged start size 0 bs u u e fits out (λ a h. refl))

    -- The moves write no block of the log.
    moving_log :
        (j a : ℕ)
        → in_log start size a ≡ true
        → moving j a ≡ update (logged_disk d) start head_block a
    moving_log j a h = replay_other a (take j moved) _ (
        writes-take a j moved
          (install_events-writes start size 0 a bs _ (not_has start size a bs out h)))

    moving_start : (j : ℕ) → moving j start ≡ head_block
    moving_start j = moving_log j start (ground arith) ∙ rw (==_refl start)

    moving-Logged : (j : ℕ) → Logged start 0 bs (moving j) u
    moving-Logged j =
        Logged-frame start size 0 bs (update (logged_disk d) start head_block) (moving j) u fits
          (λ a lo hi. moving_log j a (ground arith)) (update-Logged d)

    moving_other : (j a : ℕ) → Data start size a → has a bs ≡ false → moving j a ≡ d a
    moving_other j a h no_move =
        replay_other a (take j moved) _
          (writes-take a j moved (install_events-writes start size 0 a bs _ no_move))
        ∙ ground (
          arith,
          replay_other a (log_events start 0 bs u) d
              (log_events-writes start size 0 a bs u fits (inl h)),
        )

    pub rebooted-moving :
        (j a : ℕ)
        → ((b : ℕ) → has b bs ≡ false → u b ≡ d b)
        → Data start size a
        → rebooted start size (moving j) a ≡ u a
    rebooted-moving j a same h =
        rebooted-listed start size bs u (moving j) a
          (rw (moving_start j) ((read-header bs (logged_disk u start)).1)) room out
          (moving-Logged j) h
        ∙ ground (arith, moving_other j a h, same a)

    pub rebooted_after :
        (e : Block) (a : ℕ)
        → e 0 ≡ 0
        → ((b : ℕ) → has b bs ≡ false → u b ≡ d b)
        → Data start size a
        → rebooted start size
            (update (replay moved (update (logged_disk d) start head_block)) start e)
            a
          ≡ u a
    rebooted_after e a z same h =
        let all = update (logged_disk d) start head_block in
        rebooted-clear start size (update (replay moved all) start e) a (rw (==_refl start) z)
          (omega arith) h
        ∙ ground (
          arith,
          install_events-replay start size 0 a bs (update (logged_disk u) start head_block) u all
              fits out (update-Logged u),
          replay_other a (log_events start 0 bs u) d
              (log_events-writes start size 0 a bs u fits (inl h)),
          same a,
        )
