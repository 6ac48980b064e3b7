-- ===== src/Log/Events.antt =====
-- kernel/log.c: what each function of the log writes to the disk, in order.
use proj.Common.{
  ℕ, ◌+◌, ◌-◌, ◌≡◌, refl, sym, ap, ◌∙◌, Bool, true, false, List, [], ◌∷◌, ◌++◌, append-nil,
  append_assoc, length, ==_refl, ◌%◌, ◌^◌, ◌==◌, if◌then◌else◌, ltb,
}
use proj.Log.{
  bwrite, set_data, bunpin, Block, Blocks, update, Event, disk_write, wakeup, Log, install_loop,
  install_trans, write_head, write_log_loop, write_log, commit, recover_from_log, read_head,
  read_blocks,
}
use proj.Log.Header.{header}

-- The disk after a sequence of events.
unfoldable pub replay : List Event → Blocks → Blocks
replay [] d = d
replay (disk_write b v ∷ es) d = replay es (update d b v)
replay (wakeup ∷ es) d = replay es d

pub replay-append :
    (es fs : List Event) (d : Blocks) → replay (es ++ fs) d ≡ replay fs (replay es d)
unfolding replay
replay-append [] fs d = refl
replay-append (disk_write b v ∷ es) fs d = replay-append es fs (update d b v)
replay-append (wakeup ∷ es) fs d = replay-append es fs d

-- `l` after writing `es` through its buffers.
abbrev pub emit : Log → List Event → Log
emit l es = record l { buf = replay es l.buf; out = l.out ++ es }

-- The writes of `write_log`, of the list `bs` from the log block `tail` on.
unfoldable pub log_events : ℕ → ℕ → List ℕ → Blocks → List Event
log_events start tail [] d = []
log_events start tail (b ∷ bs) d =
    disk_write (start + tail + 1) (d b)
    ∷ log_events start (tail + 1) bs (update d (start + tail + 1) (d b))

-- Those of `install_trans`.
unfoldable pub install_events : ℕ → ℕ → List ℕ → Blocks → List Event
install_events start tail [] d = []
install_events start tail (b ∷ bs) d =
    disk_write b (d (start + tail + 1))
    ∷ install_events start (tail + 1) bs (update d b (d (start + tail + 1)))

-- That of `write_head`.
abbrev pub head_events : ℕ → List ℕ → Blocks → List Event
head_events start bs d = disk_write start (header bs (d start)) ∷ []

module _ (l : Log) (b : ℕ) (v : Block) where
  -- One block of a loop: fill the buffer, write it.
  bwrite-set_data : bwrite b (set_data b v l) ≡ emit l (disk_write b v ∷ [])
  unfolding replay
  bwrite-set_data = rw (==_refl b)

  emit-emit :
      (es : List Event) → emit (emit l (disk_write b v ∷ [])) es ≡ emit l (disk_write b v ∷ es)
  unfolding replay
  emit-emit es =
      ap (λ o. record l { buf = replay es (update l.buf b v); out = o })
        (append_assoc l.out (disk_write b v ∷ []) es)

emit-nil : (l : Log) → emit l [] ≡ l
unfolding replay
emit-nil l = ap (λ o. record l { out = o }) (append-nil l.out)

write_log_loop-emit :
    (tail : ℕ) (bs : List ℕ) (l : Log)
    → write_log_loop tail bs l ≡ emit l (log_events l.start tail bs l.buf)
unfolding write_log_loop log_events replay
write_log_loop-emit tail [] l = sym (emit-nil l)
write_log_loop-emit tail (b ∷ bs) l =
    let to = l.start + tail + 1 in
    rw (bwrite-set_data l to (l.buf b)) (
      write_log_loop-emit (tail + 1) bs (emit l (disk_write to (l.buf b) ∷ []))
      ∙ emit-emit l to (l.buf b) (log_events l.start (tail + 1) bs (update l.buf to (l.buf b))))

unfoldable pub unpin_all : Bool → List ℕ → (ℕ → ℕ) → ℕ → ℕ
unpin_all recovering [] r = r
unpin_all recovering (b ∷ bs) r =
    unpin_all recovering bs
      (if recovering then r else (λ a. if a == b then (r a + 2 ^ 32 - 1) % 2 ^ 32 else r a))

abbrev installed : Bool → List ℕ → Log → List Event → Log
installed recovering bs l es = record (emit l es) { refcnt = unpin_all recovering bs l.refcnt }

install_loop-emit :
    (recovering : Bool) (tail : ℕ) (bs : List ℕ) (l : Log)
    → install_loop recovering tail bs l
      ≡ installed recovering bs l (install_events l.start tail bs l.buf)
unfolding install_loop install_events unpin_all replay
install_loop-emit true tail [] l = sym (emit-nil l)
install_loop-emit false tail [] l = sym (emit-nil l)
install_loop-emit true tail (b ∷ bs) l =
    let v = l.buf (l.start + tail + 1) in
    rw (bwrite-set_data l b v) (
      install_loop-emit true (tail + 1) bs ((emit l (disk_write b v ∷ [])))
      ∙ ap {A = Log} (λ k. record k { refcnt = unpin_all true bs l.refcnt })
          (emit-emit l b v (install_events l.start (tail + 1) bs (update l.buf b v))))
install_loop-emit false tail (b ∷ bs) l =
    let v = l.buf (l.start + tail + 1) in
    ap {A = Log} (λ k. install_loop false (tail + 1) bs (bunpin b k)) (bwrite-set_data l b v)
    ∙ install_loop-emit false (tail + 1) bs (bunpin b (emit l (disk_write b v ∷ [])))
    ∙ ap {A = Log} (λ k. record k { refcnt = unpin_all false bs (bunpin b l).refcnt })
        (emit-emit l b v (install_events l.start (tail + 1) bs (update l.buf b v)))

write_log-emit : (l : Log) → write_log l ≡ emit l (log_events l.start 0 l.lh l.buf)
unfolding write_log
write_log-emit l = write_log_loop-emit 0 l.lh l

install_trans-emit :
    (r : Bool) (l : Log)
    → install_trans r l ≡ installed r l.lh l (install_events l.start 0 l.lh l.buf)
unfolding install_trans
install_trans-emit r l = install_loop-emit r 0 l.lh l

write_head-emit : (l : Log) → write_head l ≡ emit l (head_events l.start l.lh l.buf)
unfolding write_head
write_head-emit l = bwrite-set_data l l.start (header l.lh (l.buf l.start))

-- The disk as the log leaves it outside its own blocks; what it wrote.
unfoldable pub commit_events : ℕ → List ℕ → Blocks → List Event
commit_events start bs d =
    let logged = log_events start 0 bs d in
    let d₁ = replay logged d in
    let d₂ = replay (head_events start bs d₁) d₁ in
    let moved = install_events start 0 bs d₂ in
    logged ++ (head_events start bs d₁ ++ (moved ++ head_events start [] (replay moved d₂)))

-- The writes of a commit: the blocks to the log, the header, the blocks to their places, the header
-- with no block; and nothing if no block is logged.
pub commit-emit :
    (l : Log)
    → ltb 0 (length l.lh) ≡ true
    → commit l ≡ record (emit l (commit_events l.start l.lh l.buf)) {
      refcnt = unpin_all false l.lh l.refcnt;
      lh = [];
    }
unfolding commit commit_events
commit-emit l e =
    rw (e, write_log-emit l, write_head-emit, install_trans-emit, write_head-emit)
      (simp (append_assoc, replay-append))

-- Those of recovery, on a disk whose header lists `bs`.
unfoldable pub recover_events : ℕ → List ℕ → Blocks → List Event
recover_events start bs d =
    let moved = install_events start 0 bs d in moved ++ head_events start [] (replay moved d)

-- The blocks that the header on the disk lists.
abbrev pub listed : Block → List ℕ
listed h = read_blocks (h 0) 0 h

read_head-listed : (l : Log) → read_head l ≡ record l { lh = listed (l.buf l.start) }
unfolding read_head
read_head-listed l = refl

unpin_all-true : (bs : List ℕ) (r : ℕ → ℕ) → unpin_all true bs r ≡ r
unfolding unpin_all
unpin_all-true [] r = refl
unpin_all-true (b ∷ bs) r = unpin_all-true bs r

pub recover-emit :
    (l : Log)
    → recover_from_log l
      ≡ record (emit l (recover_events l.start (listed (l.buf l.start)) l.buf)) { lh = [] }
unfolding recover_from_log recover_events
recover-emit l =
    rw (read_head-listed l, install_trans-emit, write_head-emit, unpin_all-true)
      (simp (append_assoc, replay-append))
