-- ===== src/Fs.antt =====
-- kernel/fs.c: the blocks of a file. The disk is what the buffer cache and the log show of it: a
-- transaction runs alone on the blocks it locks. A block of the bitmap is its bits, an indirect
-- block its 256 numbers, and a block of a file its bytes. There is one disk.
pub mod Bitmap
pub mod Own
pub mod Map
pub mod Again
pub mod Freed
pub mod Trunc
use proj.Common.{
  ℕ, zero, suc, ◌+◌, ◌-◌, ◌*◌, ◌/◌, Bool, true, false, not, Option, none, some, Run, ok, panic,
  blocked, ◌>>=◌, ◌>>◌, panic_if, ◌==◌, ltb, if◌then◌else◌, put_at, or_else,
}

abbrev pub ndirect : ℕ
ndirect = 12

abbrev pub nindirect : ℕ
nindirect = 256

-- Bits of a block of the bitmap.
abbrev pub bpb : ℕ
bpb = 1024 * 8

-- `struct dinode` but the device numbers.
pub record Dinode : Type 0 where
  pub type : ℕ
  pub nlink : ℕ
  pub size : ℕ
  pub addrs : ℕ → ℕ

-- The bits of the bitmap, the numbers in each indirect block, the bytes of each data block, the
-- inodes; `sb.size` and `sb.ninodes`.
pub record Disk : Type 0 where
  pub size : ℕ
  pub ninodes : ℕ
  pub used : ℕ → Bool
  pub word : ℕ → ℕ → ℕ
  pub byte : ℕ → ℕ → ℕ
  pub dinode : ℕ → Dinode

-- The inner loop of `balloc`: the bits of one block from number `b` on.
unfoldable pub free_in : (ℕ → Bool) → ℕ → ℕ → ℕ → Option ℕ
free_in used size zero b = none
free_in used size (suc n) b =
    let rest = free_in used size n (b + 1) in
    if ltb b size then if used b then rest else some b else none

-- The outer loop, over `n` blocks of the bitmap.
unfoldable pub free_from : ℕ → (ℕ → Bool) → ℕ → ℕ → ℕ → Option ℕ
free_from width used size zero b = none
free_from width used size (suc n) b =
    let rest = free_from width used size n (b + width) in
    if ltb b size then or_else (free_in used size width b) rest else none

-- The bit is set and the block is zeroed by `bzero`.
abbrev pub take_block : ℕ → Disk → Disk
take_block b d = record d {
  used = put_at d.used b true;
  word = put_at d.word b (λ i. 0);
  byte = put_at d.byte b (λ i. 0);
}

abbrev pub balloc_take : Option ℕ → Disk → ℕ × Disk
balloc_take (some b) d = (b, take_block b d)
balloc_take none d = (0, d)

unfoldable pub balloc : Disk → ℕ × Disk
balloc d = balloc_take (free_from bpb d.used d.size (d.size / bpb + 1) 0) d

unfoldable pub bfree : ℕ → Disk → Run Disk
bfree b d = do panic_if (not (d.used b)); ok (record d { used = put_at d.used b false })

-- The part of the inode in memory that lives on the disk.
pub record Inode : Type 0 where
  pub inum : ℕ
  pub type : ℕ
  pub nlink : ℕ
  pub size : ℕ
  pub addrs : ℕ → ℕ

unfoldable pub iupdate : Inode → Disk → Disk
iupdate ip d = record d {
  dinode =
      put_at d.dinode ip.inum
        (record { type = ip.type; nlink = ip.nlink; size = ip.size; addrs = ip.addrs });
}

abbrev pub set_addr : ℕ → ℕ → Inode → Inode
set_addr i a ip = record ip { addrs = put_at ip.addrs i a }

-- `if(addr == 0) return 0; ip->addrs[i] = addr`
abbrev pub keep_addr : ℕ → Inode → ℕ × Disk → ℕ × (Inode × Disk)
keep_addr i ip (a, d) = if a == 0 then (0, (ip, d)) else (a, (set_addr i a ip, d))

-- The address at `i`, or a new one where it is 0.
unfoldable pub map_addr : ℕ → Inode × Disk → ℕ × (Inode × Disk)
unfolding balloc
map_addr i (ip, d) = if ip.addrs i == 0 then keep_addr i ip (balloc d) else (ip.addrs i, (ip, d))

-- `a[i] = addr` in block `b`.
abbrev pub set_word : ℕ → ℕ → ℕ → Disk → Disk
set_word b i a d = record d { word = put_at d.word b (put_at (d.word b) i a) }

abbrev pub keep_word : ℕ → ℕ → ℕ × Disk → ℕ × Disk
keep_word b i (a, d) = if a == 0 then (0, d) else (a, set_word b i a d)

-- The number at `i` in block `b`, or a new one where it is 0.
unfoldable pub map_word : ℕ → ℕ → Disk → ℕ × Disk
unfolding balloc
map_word b i d = if d.word b i == 0 then keep_word b i (balloc d) else (d.word b i, d)

abbrev pub with_inode : Inode → ℕ × Disk → ℕ × (Inode × Disk)
with_inode ip (a, d) = (a, (ip, d))

abbrev pub map_indirect : ℕ → ℕ × (Inode × Disk) → ℕ × (Inode × Disk)
map_indirect i (b, (ip, d)) = if b == 0 then (0, (ip, d)) else with_inode ip (map_word b i d)

unfoldable pub bmap : ℕ → Inode × Disk → Run (ℕ × (Inode × Disk))
unfolding map_addr map_word
bmap bn s =
    if ltb bn ndirect
    then ok (map_addr bn s)
    else (if ltb (bn - ndirect) nindirect
        then ok (map_indirect (bn - ndirect) (map_addr ndirect s))
        else panic)

-- The body of the first loop of `itrunc`.
unfoldable pub free_addr : ℕ → Inode × Disk → Run (Inode × Disk)
unfolding bfree
free_addr i (ip, d) =
    if ip.addrs i == 0 then ok (ip, d) else bfree (ip.addrs i) d >>= λ d'. ok (set_addr i 0 ip, d')

-- The loop over `n` addresses from `i` on.
unfoldable pub trunc_direct : ℕ → ℕ → Inode × Disk → Run (Inode × Disk)
unfolding free_addr
trunc_direct zero i s = ok s
trunc_direct (suc n) i s = free_addr i s >>= λ s'. trunc_direct n (i + 1) s'

unfoldable pub free_word : ℕ → Disk → Run Disk
unfolding bfree
free_word a d = if a == 0 then ok d else bfree a d

-- The second loop, over `n` numbers of an indirect block.
unfoldable pub trunc_words : (ℕ → ℕ) → ℕ → ℕ → Disk → Run Disk
unfolding free_word
trunc_words a zero j d = ok d
trunc_words a (suc n) j d = free_word (a j) d >>= λ d'. trunc_words a n (j + 1) d'

abbrev pub trunc_indirect : Inode × Disk → Run (Inode × Disk)
trunc_indirect (ip, d) =
    let b = ip.addrs ndirect in
    if b == 0
    then ok (ip, d)
    else trunc_words (d.word b) nindirect 0 d >>= λ d'.
        bfree b d' >>= λ d''. ok (set_addr ndirect 0 ip, d'')

abbrev pub trunc_size : Inode × Disk → Run (Inode × Disk)
trunc_size (ip, d) = let ip' = record ip { size = 0 } in ok (ip', iupdate ip' d)

unfoldable pub itrunc : Inode × Disk → Run (Inode × Disk)
unfolding trunc_direct trunc_words bfree iupdate
itrunc s = trunc_direct ndirect 0 s >>= trunc_indirect >>= trunc_size
