-- ===== src/Log.antt =====
-- kernel/log.c: the redo log. A block is its 32-bit words by index, as the header block is read.
-- `buf` is what `bread` finds for each block: the cached copy, or the block on the disk; the cache
-- keeps a pinned block. `out` lists, in order, what the log asks of the disk and of the scheduler.
-- A function that runs under `log.lock` is one transition; the commit runs outside it, and the flag
-- `committing` keeps other transactions away. There is one log device.
pub mod Header
pub mod Events
pub mod Recovery
pub mod Phases
pub mod Crash
pub mod Absorb
pub mod Reserve
use proj.Common.{
  ℕ, zero, suc, ◌+◌, ◌-◌, ◌*◌, ◌%◌, ◌^◌, Bool, true, false, ◌||◌, ◌&&◌, List, [], ◌∷◌, ◌++◌, Run,
  ok, blocked, ◌>>=◌, ◌>>◌, panic_if, ltb, leb, ◌==◌, if◌then◌else◌, length, set,
}

abbrev pub Block : Type 0
Block = ℕ → ℕ

abbrev pub Blocks : Type 0
Blocks = ℕ → Block

abbrev pub update : Blocks → ℕ → Block → Blocks
update d b v a = if a == b then v else d a

pub data Event : Type 0 where
  -- `virtio_disk_rw(b, 1)` for the block and its data
  disk_write : ℕ → Block → Event
  -- `wakeup(&log)`
  wakeup : Event

abbrev pub maxopblocks : ℕ
maxopblocks = 10

abbrev pub logsize : ℕ
logsize = maxopblocks * 3

-- `struct log` with the buffers that it works on. `lh` holds the first `lh.n` entries of
-- `lh.block`, which are all that is ever read; `outstanding` is the bit pattern of an int.
pub record Log : Type 0 where
  pub start : ℕ
  pub size : ℕ
  pub outstanding : ℕ
  pub committing : Bool
  pub lh : List ℕ
  pub buf : Blocks
  -- references to each buffer, by block number
  pub refcnt : ℕ → ℕ
  pub out : List Event

abbrev set_data : ℕ → Block → Log → Log
set_data b v l = record l { buf = update l.buf b v }

abbrev bwrite : ℕ → Log → Log
bwrite b l = record l { out = l.out ++ (disk_write b (l.buf b) ∷ []) }

abbrev pub bpin : ℕ → Log → Log
bpin b l = record l { refcnt = λ a. if a == b then (l.refcnt a + 1) % 2 ^ 32 else l.refcnt a }

abbrev bunpin : ℕ → Log → Log
bunpin b l = record l {
  refcnt = λ a. if a == b then (l.refcnt a + 2 ^ 32 - 1) % 2 ^ 32 else l.refcnt a;
}

abbrev pub wake : Log → Log
wake l = record l { out = l.out ++ (wakeup ∷ []) }

-- The loop of `install_trans` from `tail` on, over the entries that are left.
unfoldable pub install_loop : Bool → ℕ → List ℕ → Log → Log
install_loop recovering tail [] l = l
install_loop recovering tail (b ∷ bs) l =
    let l' = bwrite b (set_data b (l.buf (l.start + tail + 1)) l) in
    install_loop recovering (tail + 1) bs (if recovering then l' else bunpin b l')

unfoldable pub install_trans : Bool → Log → Log
unfolding install_loop
install_trans recovering l = install_loop recovering 0 l.lh l

-- The number in the header block is one that `write_head` wrote, or the 0 of a new disk.
-- `lh->block[i]` for the `n` indices from `i` on; word 0 of the header is `lh->n`.
unfoldable pub read_blocks : ℕ → ℕ → Block → List ℕ
read_blocks zero i h = []
read_blocks (suc n) i h = h (i + 1) ∷ read_blocks n (i + 1) h

unfoldable pub read_head : Log → Log
unfolding read_blocks
read_head l = let h = l.buf l.start in record l { lh = read_blocks (h 0) 0 h }

abbrev pub set_word : Block → ℕ → ℕ → Block
set_word h i v w = if w == i then v else h w

unfoldable pub write_blocks : ℕ → List ℕ → Block → Block
write_blocks i [] h = h
write_blocks i (b ∷ bs) h = write_blocks (i + 1) bs (set_word h (i + 1) b)

unfoldable pub write_head : Log → Log
unfolding write_blocks
write_head l =
    let h = write_blocks 0 l.lh (set_word (l.buf l.start) 0 (length l.lh)) in
    bwrite l.start (set_data l.start h l)

unfoldable pub recover_from_log : Log → Log
recover_from_log l = let l' = install_trans true (read_head l) in write_head (record l' { lh = [] })

-- The header is smaller than a block, so the check on its size passes.
unfoldable pub initlog : ℕ → ℕ → Log → Log
initlog logstart nlog l = recover_from_log (record l { start = logstart; size = nlog })

unfoldable pub write_log_loop : ℕ → List ℕ → Log → Log
write_log_loop tail [] l = l
write_log_loop tail (b ∷ bs) l =
    let to = l.start + tail + 1 in
    write_log_loop (tail + 1) bs (bwrite to (set_data to (l.buf b) l))

unfoldable pub write_log : Log → Log
unfolding write_log_loop
write_log l = write_log_loop 0 l.lh l

unfoldable pub commit : Log → Log
commit l =
    let l' = install_trans false (write_head (write_log l)) in
    if ltb 0 (length l.lh) then write_head (record l' { lh = [] }) else l

-- `lh.n + (outstanding+1)*MAXOPBLOCKS > LOGSIZE` on ints.
abbrev pub no_space : ℕ → ℕ → Bool
no_space n o =
    let reserved = (o + 1) * maxopblocks % 2 ^ 32 in
    ltb reserved (2 ^ 31) && ltb logsize (n + reserved)

-- `blocked`: the caller sleeps until `end_op` wakes it, and then runs the loop again.
unfoldable pub begin_op : Log → Run Log
begin_op l =
    if l.committing
    then blocked
    else if no_space (length l.lh) l.outstanding
    then blocked
    else ok (record l { outstanding = (l.outstanding + 1) % 2 ^ 32 })

-- `end_op` up to the `release` of the lock, and whether the caller is to commit.
unfoldable pub end_op_start : Log → Run (Bool × Log)
end_op_start l = do
  let left = (l.outstanding + 2 ^ 32 - 1) % 2 ^ 32
  panic_if l.committing
  if left == 0
      then ok (true, record l { outstanding = left; committing = true })
      else ok (false, wake (record l { outstanding = left }))

-- The rest of `end_op` for a caller that commits. The lock is free during the commit, so that other
-- processes may run in between.
unfoldable pub end_op_commit : Log → Log
end_op_commit l = wake (record (commit l) { committing = false })

-- `end_op` of a process that no other interrupts.
unfoldable pub end_op : Log → Run Log
unfolding end_op_start end_op_commit
end_op l = end_op_start l >>= λ (do_commit, l'). ok (if do_commit then end_op_commit l' else l')

-- The index at which the search for `b` stops.
unfoldable pub find_block : ℕ → List ℕ → ℕ
find_block b [] = 0
find_block b (x ∷ xs) = if x == b then 0 else suc (find_block b xs)

-- `outstanding < 1` as an int.
abbrev pub none_outstanding : ℕ → Bool
none_outstanding o = (o == 0) || leb (2 ^ 31) o

unfoldable pub log_write : ℕ → Log → Run Log
unfolding find_block
log_write b l = do
  panic_if (leb logsize (length l.lh) || leb (l.size - 1) (length l.lh))
  panic_if (none_outstanding l.outstanding)
  let i = find_block b l.lh
  if i == length l.lh
      then ok (bpin b (record l { lh = l.lh ++ (b ∷ []) }))
      else ok (record l { lh = set l.lh i b })
