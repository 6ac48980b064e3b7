-- ===== src/Fileio.antt =====
-- kernel/fs.c: reading and writing the contents of a file. A copy to user memory is the bytes
-- and, by its position, whether it succeeds; a copy from user memory is a `Transfer`.
pub mod Contents
pub mod Pieces
pub mod Write
pub mod Read
pub mod Roundtrip
use proj.Common.{
  not, ℕ, zero, suc, ◌+◌, ◌-◌, ◌*◌, ◌/◌, ◌%◌, ◌^◌, min, Bool, true, false, ◌&&◌, ◌||◌, Option, none,
  some, List, [], ◌∷◌, ◌++◌, Run, ok, panic, blocked, ◌>>=◌, ◌==◌, ltb, leb, if◌then◌else◌,
}
use proj.Fs.{Inode, Disk, bmap, iupdate}

abbrev pub bsize : ℕ
bsize = 1024

-- `MAXFILE*BSIZE`
abbrev pub max_bytes : ℕ
max_bytes = 268 * bsize

-- `m = min(n - tot, BSIZE - off%BSIZE)`
abbrev pub chunk : ℕ → ℕ → ℕ → ℕ
chunk n tot off = min (n - tot) (bsize - off % bsize)

-- The `m` bytes of a block from index `i` on.
abbrev pub bytes_from : (ℕ → ℕ) → ℕ → ℕ → List ℕ
bytes_from f i zero = []
bytes_from f i (suc m) = f i ∷ bytes_from f (i + 1) m

-- The value that is returned, -1 as none, and the bytes that were copied out.
abbrev pub Copied : Type 0
Copied = Option ℕ × List ℕ

abbrev pub prepend : List ℕ → Copied × (Inode × Disk) → Run (Copied × (Inode × Disk))
prepend bs ((r, rest), s) = ok ((r, bs ++ rest), s)

-- The loop of `readi`, on fuel. The body where the block has an address, with the rest of the loop
-- as `rest`.
abbrev pub readi_body :
    (ℕ → Bool)
    → ℕ
    → ℕ
    → ℕ
    → (ℕ → ℕ → Inode × Disk → Run (Copied × (Inode × Disk)))
    → ℕ × (Inode × Disk)
    → Run (Copied × (Inode × Disk))
readi_body copied off n tot rest (addr, s) =
    let m = chunk n tot off in
    let bs = bytes_from (s.1.byte addr) (off % bsize) m in
    if addr == 0
    then ok ((some tot, []), s)
    else (if copied tot then (rest (off + m) (tot + m) s >>= prepend bs) else ok ((none, []), s))

unfoldable pub readi_loop :
    (ℕ → Bool) → ℕ → ℕ → ℕ → ℕ → Inode × Disk → Run (Copied × (Inode × Disk))
unfolding bmap
readi_loop copied zero n off tot s = blocked
readi_loop copied (suc fuel) n off tot s =
    if ltb tot n
    then bmap (off / bsize) s >>= readi_body copied off n tot (readi_loop copied fuel n)
    else ok ((some tot, []), s)

unfoldable pub readi : (ℕ → Bool) → ℕ → ℕ → Inode × Disk → Run (Copied × (Inode × Disk))
unfolding readi_loop
readi copied off n (ip, d) =
    if ltb ip.size off || ltb ((off + n) % 2 ^ 32) off
    then ok ((some 0, []), (ip, d))
    else (let n' = if ltb ip.size ((off + n) % 2 ^ 32) then ip.size - off else n in
        readi_loop copied (n' + 1) n' off 0 (ip, d))

-- `m` bytes of the source from `tot` on, put into block `b` at index `i`.
abbrev pub put_bytes : (ℕ → ℕ) → ℕ → ℕ → ℕ → ℕ → Disk → Disk
put_bytes src tot b i m d = record d {
  byte = λ x j. if (x == b) && (leb i j && ltb j (i + m)) then src (tot + (j - i)) else d.byte x j;
}

-- What the loop of `writei` meets at a position of the source: whether `either_copyin` succeeds; how
-- many bytes it has copied if it does not; and whether the transaction has room for the block, since
-- `log_write` panics if it has not.
pub record Transfer : Type 0 where
  pub copied : ℕ → Bool
  pub part : ℕ → ℕ
  pub room : ℕ → Bool

-- What a copy that failed has put into the cached block stays there, but is not logged.
abbrev pub writei_body :
    Transfer
    → (ℕ → ℕ)
    → ℕ
    → ℕ
    → ℕ
    → (ℕ → ℕ → Inode × Disk → Run (ℕ × (Inode × Disk)))
    → ℕ × (Inode × Disk)
    → Run (ℕ × (Inode × Disk))
writei_body tr src off n tot rest (addr, (ip, d)) =
    let m = chunk n tot off in
    let partly = put_bytes src tot addr (off % bsize) (min (tr.part tot) m) d in
    let next = rest (off + m) (tot + m) (ip, put_bytes src tot addr (off % bsize) m d) in
    if addr == 0
    then ok (tot, (ip, d))
    else if not (tr.copied tot)
    then ok (tot, (ip, partly))
    else if tr.room tot
    then next
    else panic

-- The loop of `writei`, on fuel.
unfoldable pub writei_loop :
    Transfer → (ℕ → ℕ) → ℕ → ℕ → ℕ → ℕ → Inode × Disk → Run (ℕ × (Inode × Disk))
unfolding bmap
writei_loop tr src zero n off tot s = blocked
writei_loop tr src (suc fuel) n off tot s =
    if ltb tot n
    then bmap (off / bsize) s >>= writei_body tr src off n tot (writei_loop tr src fuel n)
    else ok (tot, s)

-- `if(off > ip->size) ip->size = off; iupdate(ip)`, where `off` has advanced by `tot`.
abbrev pub writei_end : ℕ → ℕ × (Inode × Disk) → Run (Option ℕ × (Inode × Disk))
writei_end off (tot, (ip, d)) =
    let ip' = if ltb ip.size (off + tot) then record ip { size = off + tot } else ip in
    ok (some tot, (ip', iupdate ip' d))

-- -1 as none.
unfoldable pub writei : Transfer → (ℕ → ℕ) → ℕ → ℕ → Inode × Disk → Run (Option ℕ × (Inode × Disk))
unfolding writei_loop iupdate
writei tr src off n (ip, d) =
    if ltb ip.size off || ltb ((off + n) % 2 ^ 32) off || ltb max_bytes ((off + n) % 2 ^ 32)
    then ok (none, (ip, d))
    else writei_loop tr src (n + 1) n off 0 (ip, d) >>= writei_end off
