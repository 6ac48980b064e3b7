-- ===== src/Itable.antt =====
-- kernel/fs.c: the table of inodes in memory. An inode is its index in `itable.inode`. What runs
-- under `itable.lock` or on a locked inode is one transition.
pub mod Get
pub mod Put
use proj.Common.{
  ℕ, zero, suc, ◌+◌, ◌-◌, ◌%◌, ◌^◌, Bool, true, false, not, ◌&&◌, ◌||◌, Option, none, some, Run, ok,
  panic, blocked, ◌>>=◌, ◌>>◌, panic_if, ◌==◌, ltb, if◌then◌else◌, put_at,
}
use proj.Fs.{Inode, Dinode, Disk, itrunc, iupdate}
use proj.Sleeplock.{Sleeplock, initsleeplock, acquiresleep, releasesleep, holdingsleep}

abbrev pub ninode : ℕ
ninode = 50

-- The fields of `struct inode` by index, those that live on the disk and `inum` together, and the
-- disk.
pub record Itable : Type 0 where
  pub dev : ℕ → ℕ
  pub ref : ℕ → ℕ
  pub lock : ℕ → Sleeplock
  pub valid : ℕ → Bool
  pub ip : ℕ → Inode
  pub disk : Disk

-- What the loop of `iget` found: the inode, or the first empty slot if there is one.
pub data Search : Type 0 where
  cached : ℕ → Search
  free : Option ℕ → Search

abbrev pub or_first : Option ℕ → Bool → ℕ → Option ℕ
or_first (some e) test i = some e
or_first none test i = if test then some i else none

abbrev pub is_inode : ℕ → ℕ → Itable → ℕ → Bool
is_inode dev inum t i = ltb 0 (t.ref i) && (t.dev i == dev) && ((t.ip i).inum == inum)

-- The loop, over `n` entries from `i` on.
unfoldable pub iget_loop : ℕ → ℕ → Itable → ℕ → ℕ → Option ℕ → Search
iget_loop dev inum t zero i empty = free empty
iget_loop dev inum t (suc n) i empty =
    let rest = iget_loop dev inum t n (i + 1) (or_first empty (t.ref i == 0) i) in
    if is_inode dev inum t i then cached i else rest

abbrev pub incref : ℕ → Itable → Itable
incref i t = record t { ref = put_at t.ref i ((t.ref i + 1) % 2 ^ 32) }

abbrev pub decref : ℕ → Itable → Itable
decref i t = record t { ref = put_at t.ref i ((t.ref i + 2 ^ 32 - 1) % 2 ^ 32) }

abbrev pub recycle : ℕ → ℕ → ℕ → Itable → Itable
recycle dev inum i t = record t {
  dev = put_at t.dev i dev;
  ref = put_at t.ref i 1;
  valid = put_at t.valid i false;
  ip = put_at t.ip i (record (t.ip i) { inum = inum });
}

abbrev pub iget_take : ℕ → ℕ → Itable → Search → Run (ℕ × Itable)
iget_take dev inum t (cached i) = ok (i, incref i t)
iget_take dev inum t (free (some i)) = ok (i, recycle dev inum i t)
iget_take dev inum t (free none) = panic

unfoldable pub iget : ℕ → ℕ → Itable → Run (ℕ × Itable)
unfolding iget_loop
iget dev inum t = iget_take dev inum t (iget_loop dev inum t ninode 0 none)

unfoldable pub idup : ℕ → Itable → Itable
idup i t = incref i t

-- A free inode on the disk, of `n` from number `inum` on.
unfoldable pub free_inode : (ℕ → Dinode) → ℕ → ℕ → Option ℕ
free_inode dinode zero inum = none
free_inode dinode (suc n) inum =
    let rest = free_inode dinode n (inum + 1) in if (dinode inum).type == 0 then some inum else rest

-- `memset(dip, 0, sizeof(*dip)); dip->type = type`
abbrev pub init_inode : ℕ → ℕ → Itable → Itable
init_inode inum type t = record t {
  disk = record (t.disk) {
    dinode =
        put_at t.disk.dinode inum (record { type = type; nlink = 0; size = 0; addrs = λ k. 0 });
  };
}

abbrev pub some_inode : ℕ × Itable → Run (Option ℕ × Itable)
some_inode (i, t) = ok (some i, t)

abbrev pub ialloc_take : ℕ → ℕ → Itable → Option ℕ → Run (Option ℕ × Itable)
ialloc_take dev type t (some inum) = iget dev inum (init_inode inum type t) >>= some_inode
ialloc_take dev type t none = ok (none, t)

unfoldable pub ialloc : ℕ → ℕ → Itable → Run (Option ℕ × Itable)
unfolding free_inode iget
ialloc dev type t = ialloc_take dev type t (free_inode t.disk.dinode (t.disk.ninodes - 1) 1)

-- `ip->type = dip->type; ...; ip->valid = 1`
abbrev pub load : ℕ → Itable → Itable
load i t =
    let inum = (t.ip i).inum in
    let dip = t.disk.dinode inum in
    record t {
      ip = put_at t.ip i (record {
        inum = inum;
        type = dip.type;
        nlink = dip.nlink;
        size = dip.size;
        addrs = dip.addrs;
      });
      valid = put_at t.valid i true;
    }

abbrev pub load_checked : ℕ → Itable → Run Itable
load_checked i t =
    if t.valid i then ok t else (let t' = load i t in panic_if ((t'.ip i).type == 0) >> ok t')

-- `ilock` of an inode that is not 0.
unfoldable pub ilock : ℕ → ℕ → Itable → Run Itable
unfolding acquiresleep
ilock pid i t = do
  panic_if (ltb (t.ref i) 1)
  lk ← acquiresleep pid (t.lock i)
  load_checked i (record t { lock = put_at t.lock i lk })

unfoldable pub iunlock : ℕ → ℕ → Itable → Run Itable
unfolding holdingsleep releasesleep
iunlock pid i t = do
  panic_if (not (holdingsleep pid (t.lock i)) || ltb (t.ref i) 1)
  ok (record t { lock = put_at t.lock i (releasesleep (t.lock i)) })

-- `ip->type = 0; iupdate(ip); ip->valid = 0`, and the lock is released.
abbrev pub discard : ℕ → Itable → Inode × Disk → Itable
discard i t (ip, d) =
    let ip' = record ip { type = 0 } in
    record t {
      ip = put_at t.ip i ip';
      disk = iupdate ip' d;
      valid = put_at t.valid i false;
      lock = put_at t.lock i (releasesleep (t.lock i));
    }

-- The inode has no links and no other references: truncate and free.
unfoldable pub free_last : ℕ → ℕ → Itable → Run Itable
unfolding acquiresleep releasesleep itrunc iupdate
free_last pid i t = do
  lk ← acquiresleep pid (t.lock i)
  r ← itrunc (t.ip i, t.disk)
  ok (discard i (record t { lock = put_at t.lock i lk }) r)

unfoldable pub iput : ℕ → ℕ → Itable → Run Itable
unfolding free_last
iput pid i t =
    let last = (t.ref i == 1) && t.valid i && ((t.ip i).nlink == 0) in
    (if last then free_last pid i t else ok t) >>= λ t'. ok (decref i t')

unfoldable pub iunlockput : ℕ → ℕ → Itable → Run Itable
unfolding iunlock iput
iunlockput pid i t = iunlock pid i t >>= iput pid i
