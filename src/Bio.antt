-- ===== src/Bio.antt =====
-- kernel/bio.c: the buffer cache. A buffer is its index in `bcache.buf`, and the head of the list
-- is the index behind the last. What runs under `bcache.lock` is one transition. A transfer by the
-- disk driver is complete when the driver returns.
pub mod Links
pub mod Ring
pub mod Order
pub mod Lru
pub mod Refine
pub mod Unique
use proj.Common.{
  ℕ, zero, suc, ◌+◌, ◌-◌, ◌*◌, ◌%◌, ◌^◌, Bool, true, false, not, ◌&&◌, Option, none, some, Run, ok,
  panic, blocked, ◌>>=◌, ◌>>◌, panic_if, ◌==◌, if◌then◌else◌, put_at,
}
use proj.Sleeplock.{Sleeplock, initsleeplock, acquiresleep, releasesleep, holdingsleep}

abbrev pub nbuf : ℕ
nbuf = 30

abbrev pub head : ℕ
head = nbuf

-- The 1024 bytes of a block by index.
abbrev pub Bytes : Type 0
Bytes = ℕ → ℕ

-- The fields of `struct buf` but the links, by buffer, and the blocks of the disks by device and
-- number.
pub record Bufs : Type 0 where
  pub dev : ℕ → ℕ
  pub blockno : ℕ → ℕ
  pub valid : ℕ → Bool
  pub refcnt : ℕ → ℕ
  pub lock : ℕ → Sleeplock
  pub bytes : ℕ → Bytes
  pub disk : ℕ → ℕ → Bytes

-- `bcache`.
pub record Bcache : Type 0 where
  pub next : ℕ → ℕ
  pub prev : ℕ → ℕ
  pub bufs : Bufs

-- `b->next = head.next; b->prev = &head; head.next->prev = b; head.next = b`
unfoldable pub push_front : ℕ → Bcache → Bcache
push_front b s =
    let next = put_at s.next b (s.next head) in
    let prev = put_at s.prev b head in
    record s { prev = put_at prev (next head) b; next = put_at next head b }

-- `b->next->prev = b->prev; b->prev->next = b->next`
unfoldable pub unlink : ℕ → Bcache → Bcache
unlink b s =
    let prev = put_at s.prev (s.next b) (s.prev b) in
    record s { prev = prev; next = put_at s.next (prev b) (s.next b) }

abbrev pub set_lock : ℕ → Sleeplock → Bufs → Bufs
set_lock b lk m = record m { lock = put_at m.lock b lk }

-- The loop of `binit` over the `n` buffers from `b` on.
unfoldable pub binit_loop : ℕ → ℕ → Bcache → Bcache
binit_loop zero b s = s
binit_loop (suc n) b s =
    binit_loop n (b + 1) (push_front b (record s { bufs = set_lock b initsleeplock s.bufs }))

unfoldable pub binit : Bcache → Bcache
unfolding binit_loop initsleeplock
binit s =
    binit_loop nbuf 0 (record s { prev = put_at s.prev head head; next = put_at s.next head head })

abbrev pub is_block : ℕ → ℕ → Bufs → ℕ → Bool
is_block dev blockno m b = (m.dev b == dev) && (m.blockno b == blockno)

abbrev pub unused : Bufs → ℕ → Bool
unused m b = m.refcnt b == 0

-- A loop over the list from `b` on that stops at the first buffer that passes the test; `step` is
-- `b->next` or `b->prev`. On fuel: the list has NBUF buffers.
unfoldable pub scan : (ℕ → ℕ) → (ℕ → Bool) → ℕ → ℕ → Option ℕ
scan step test zero b = none
scan step test (suc fuel) b =
    let rest = scan step test fuel (step b) in
    if b == head then none else if test b then some b else rest

-- `b->refcnt++`
abbrev pub hold : ℕ → Bufs → Bufs
hold b m = record m { refcnt = put_at m.refcnt b ((m.refcnt b + 1) % 2 ^ 32) }

-- `b->refcnt--`
abbrev pub drop : ℕ → Bufs → Bufs
drop b m = record m { refcnt = put_at m.refcnt b ((m.refcnt b + 2 ^ 32 - 1) % 2 ^ 32) }

abbrev pub recycle : ℕ → ℕ → ℕ → Bufs → Bufs
recycle dev blockno b m = record m {
  dev = put_at m.dev b dev;
  blockno = put_at m.blockno b blockno;
  valid = put_at m.valid b false;
  refcnt = put_at m.refcnt b 1;
}

-- What `bget` does with what its two loops find.
abbrev pub found : ℕ → ℕ → Option ℕ → Option ℕ → Bufs → Run (ℕ × Bufs)
found dev blockno (some b) least m = ok (b, hold b m)
found dev blockno none (some b) m = ok (b, recycle dev blockno b m)
found dev blockno none none m = panic

abbrev pub with_bufs {ℓ} : {A : Type ℓ} → Bcache → A × Bufs → A × Bcache
with_bufs s (a, m) = (a, record s { bufs = m })

-- The part of `bget` under `bcache.lock`.
unfoldable pub bget_find : ℕ → ℕ → Bcache → Run (ℕ × Bcache)
unfolding scan
bget_find dev blockno s =
    let cached = scan s.next (is_block dev blockno s.bufs) (nbuf + 1) (s.next head) in
    let least = scan s.prev (unused s.bufs) (nbuf + 1) (s.prev head) in
    found dev blockno cached least s.bufs >>= λ r. ok (with_bufs s r)

abbrev pub lock_buf : ℕ → ℕ → Bufs → Run Bufs
lock_buf pid b m = acquiresleep pid (m.lock b) >>= λ lk. ok (set_lock b lk m)

-- The end of `bget`: `acquiresleep(&b->lock)`, before which other processes can run.
unfoldable pub bget_lock : ℕ → ℕ → Bcache → Run Bcache
unfolding acquiresleep
bget_lock pid b s = lock_buf pid b s.bufs >>= λ m. ok (record s { bufs = m })

-- `bget` where no other process runs before the sleep lock is taken.
unfoldable pub bget : ℕ → ℕ → ℕ → Bcache → Run (ℕ × Bcache)
unfolding bget_find bget_lock
bget pid dev blockno s =
    bget_find dev blockno s >>= λ (b, s'). bget_lock pid b s' >>= λ s''. ok (b, s'')

-- `virtio_disk_rw(b, 0)`
abbrev pub disk_read : ℕ → Bufs → Bufs
disk_read b m = record m { bytes = put_at m.bytes b (m.disk (m.dev b) (m.blockno b)) }

-- `virtio_disk_rw(b, 1)`
abbrev pub disk_write : ℕ → Bufs → Bufs
disk_write b m = record m {
  disk = λ d n. if (d == m.dev b) && (n == m.blockno b) then m.bytes b else m.disk d n;
}

-- `if(!b->valid) { virtio_disk_rw(b, 0); b->valid = 1; }`
abbrev pub fill : ℕ → Bufs → Bufs
fill b m = if m.valid b then m else record (disk_read b m) { valid = put_at m.valid b true }

-- The rest of `bread`, on the buffer it got.
unfoldable pub bread_fill : ℕ → Bcache → Bcache
bread_fill b s = record s { bufs = fill b s.bufs }

unfoldable pub bread : ℕ → ℕ → ℕ → Bcache → Run (ℕ × Bcache)
unfolding bget bread_fill
bread pid dev blockno s = bget pid dev blockno s >>= λ (b, s'). ok (b, bread_fill b s')

unfoldable pub bwrite : ℕ → ℕ → Bcache → Run Bcache
unfolding holdingsleep
bwrite pid b s = do
  panic_if (not (holdingsleep pid (s.bufs.lock b)))
  ok (record s { bufs = disk_write b s.bufs })

unfoldable pub brelse : ℕ → ℕ → Bcache → Run Bcache
unfolding holdingsleep releasesleep unlink push_front
brelse pid b s = do
  panic_if (not (holdingsleep pid (s.bufs.lock b)))
  let m = drop b (set_lock b (releasesleep (s.bufs.lock b)) s.bufs)
  let s' = record s { bufs = m }
  if m.refcnt b == 0 then ok (push_front b (unlink b s')) else ok s'

unfoldable pub bpin : ℕ → Bcache → Bcache
bpin b s = record s { bufs = hold b s.bufs }

unfoldable pub bunpin : ℕ → Bcache → Bcache
bunpin b s = record s { bufs = drop b s.bufs }
