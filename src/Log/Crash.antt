-- ===== src/Log/Crash.antt =====
-- kernel/log.c: a crash at any moment of a commit, and the recovery after it.
use proj.Common.{
  ℕ, suc, ◌+◌, ◌-◌, ◌≤◌, ◌≡◌, refl, sym, ap, inl, inr, false, List, [], ◌∷◌, ◌++◌, append-nil,
  length, take, take-append, take_all, take-snoc, take_none, take-nil, All, arith, ltb, leb, leb→le,
  if◌then◌else◌, Bool-cases,
}
use proj.Log.{Block, Blocks, Event, disk_write, Log, commit}
use proj.Log.Header.{header, read-header}
use proj.Log.Events.{replay, replay-append, log_events, commit_events, commit-emit}
use proj.Log.Recovery.{has, Data}
use proj.Log.Phases.{
  rebooted, rebooted-clear, length-log_events, logged_disk, head_block, moved, rebooted_before,
  rebooted-moving, rebooted_after,
}

-- `l` may commit over disk `d`: no transaction is on the disk, and the buffers differ from the disk
-- only in the logged blocks, which are data blocks that fit into the log.
pub record CanCommit (l : Log) (d : Blocks) : Type 0 where
  pub room : length l.lh + 1 ≤ l.size
  pub logged : All (Data l.start l.size) l.lh
  pub clear : d l.start 0 ≡ 0
  pub same : (a : ℕ) → has a l.lh ≡ false → l.buf a ≡ d a

header-nil : (h : Block) → header [] h 0 ≡ 0
header-nil h = (read-header [] h).0

-- What follows the header: the moves, and the header that clears the log.
module _ (start size : ℕ) (bs : List ℕ) (u d : Blocks) (e : Block) (j a : ℕ) where
  crash-after_header :
      length bs + 1 ≤ size
      → All (Data start size) bs
      → e 0 ≡ 0
      → ((b : ℕ) → has b bs ≡ false → u b ≡ d b)
      → Data start size a
      → rebooted start size
          (replay
            (disk_write start (head_block start size bs u d)
              ∷ take j (moved start size bs u d ++ (disk_write start e ∷ [])))
            (logged_disk start size bs u d d))
          a
        ≡ u a
  unfolding replay
  crash-after_header room out z same h =
      elim (take-snoc j (moved start size bs u d) (disk_write start e)) [
        | inl p ↦ rw p (rebooted-moving start size bs u d room out j a same h)
        | inr p ↦ rw (p, replay-append) (rebooted_after start size bs u d room out e a z same h)
      ]

-- A crash after `k` of the writes of a commit of the blocks `bs`.
crash-commit_events :
    (start size : ℕ) (bs : List ℕ) (u d : Blocks) (k a : ℕ)
    → length bs + 1 ≤ size
    → All (Data start size) bs
    → d start 0 ≡ 0
    → ((b : ℕ) → has b bs ≡ false → u b ≡ d b)
    → Data start size a
    → rebooted start size (replay (take k (commit_events start bs u)) d) a
      ≡ (if leb k (length bs) then d a else u a)
unfolding commit_events replay
crash-commit_events start size bs u d k a room out clear same h =
    elim (Bool-cases (leb k (length bs))) [
      | inl early ↦
          rw
            (
              early,
              take-append,
              take_none (k - length ev) _ (omega (arith, leb→le k (length bs) early, n)),
              append-nil,
            )
            (rebooted_before start size bs u d room out k a clear h)
      | inr late ↦
          let j = k - length bs - 1 in
          let e : k - length ev ≡ suc j = ground (arith, n) in
          rw (late, take-append, take_all k ev (ground (arith, n)), e, replay-append)
            (crash-after_header start size bs u d _ j a room out (header-nil _) same h)
    ]
  where
    ev : List Event
    ev = log_events start 0 bs u

    n : length ev ≡ length bs
    n = length-log_events start 0 bs u

pub commit-nil : (l : Log) → ltb 0 (length l.lh) ≡ false → commit l ≡ l
unfolding commit
commit-nil l e = rw e

not_has_nil : (a : ℕ) (bs : List ℕ) → ltb 0 (length bs) ≡ false → has a bs ≡ false
not_has_nil a [] e = refl
not_has_nil a (b ∷ bs) e = absurd (ground arith)

-- Let a log be about to commit: no transaction is on the disk, the logged blocks are data blocks
-- that fit into the log, and the buffers differ from the disk in them only. However many of the
-- writes of the commit reach the disk before a crash, the recovery at the next start leaves every
-- data block as it was before the commit if the header was not yet written (that is after one write
-- for each logged block), and every data block as it stood in the buffers if it was.
pub commit_atomic :
    (l : Log) (d : Blocks)
    → CanCommit l d
    → (es : List Event) × ((commit l).out ≡ l.out ++ es)
      × ((k a : ℕ)
          → Data l.start l.size a
          → rebooted l.start l.size (replay (take k es) d) a
            ≡ (if leb k (length l.lh) then d a else l.buf a))
unfolding replay
commit_atomic l d v = elim (Bool-cases (ltb 0 (length l.lh))) [
  | inl some_blocks ↦ (
    commit_events l.start l.lh l.buf,
    ap (λ (m : Log). m.out) (commit-emit l some_blocks),
    λ k a. crash-commit_events l.start l.size l.lh l.buf d k a v.room v.logged v.clear v.same,
  )
  | inr no_blocks ↦ (
    [],
    rw (commit-nil l no_blocks) (sym (append-nil l.out)),
    λ k a h.
        let gone : has a l.lh ≡ false = not_has_nil a l.lh no_blocks in
        rw (take-nil k, rebooted-clear l.start l.size d a v.clear (omega (arith, v.room)) h)
          (ground (arith, v.same a gone)),
  )
]
