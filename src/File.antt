-- ===== src/File.antt =====
-- kernel/file.c: the table of open files and their reference counts. Each function holds
-- `ftable.lock` while it looks at the table. `ref` is the bit pattern of an int.
pub mod Holders
use proj.Common.{
  ℕ, zero, suc, ◌+◌, ◌-◌, ◌%◌, ◌^◌, Bool, true, false, ◌||◌, Option, none, some, Run, ok, ◌>>=◌,
  ◌>>◌, panic_if, ltb, leb, ◌==◌, if◌then◌else◌,
}

pub data FileType : Type 0 where
  fd_none fd_pipe fd_inode fd_device : FileType

-- `struct file`; `pipe` and `ip` are addresses.
pub record File : Type 0 where
  pub type_of : FileType
  pub ref : ℕ
  pub readable : Bool
  pub writable : Bool
  pub pipe : ℕ
  pub ip : ℕ
  pub off : ℕ
  pub major : ℕ

abbrev pub nfile : ℕ
nfile = 100

abbrev pub Files : Type 0
Files = ℕ → File

-- What `fileclose` does with the object behind a file that is no longer open.
pub data Closing : Type 0 where
  nothing : Closing
  close_pipe : ℕ → Bool → Closing
  -- in a transaction
  put_inode : ℕ → Closing

abbrev pub set_ref : ℕ → ℕ → Files → Files
set_ref i r fs j = if j == i then record (fs i) { ref = r } else fs j

-- The loop of `filealloc` over the `n` files from `i` on.
unfoldable pub filealloc_loop : ℕ → ℕ → Files → Option ℕ × Files
filealloc_loop zero i fs = (none, fs)
filealloc_loop (suc n) i fs =
    let rest = filealloc_loop n (i + 1) fs in
    if (fs i).ref == 0 then (some i, set_ref i 1 fs) else rest

unfoldable pub filealloc : Files → Option ℕ × Files
unfolding filealloc_loop
filealloc fs = filealloc_loop nfile 0 fs

-- `ref < 1` as an int.
abbrev pub unreferenced : ℕ → Bool
unreferenced r = (r == 0) || leb (2 ^ 31) r

unfoldable pub filedup : ℕ → Files → Run Files
filedup f fs = do panic_if (unreferenced (fs f).ref); ok (set_ref f (((fs f).ref + 1) % 2 ^ 32) fs)

abbrev pub closing : File → Closing
closing ff = elim ff.type_of [
  | fd_none ↦ nothing
  | fd_pipe ↦ close_pipe ff.pipe ff.writable
  | fd_inode ↦ put_inode ff.ip
  | fd_device ↦ put_inode ff.ip
]

abbrev pub reset : ℕ → Files → Files
reset i fs j = if j == i then record (fs i) { ref = 0; type_of = fd_none } else fs j

unfoldable pub fileclose : ℕ → Files → Run (Closing × Files)
fileclose f fs = do
  panic_if (unreferenced (fs f).ref)
  let r = (fs f).ref - 1
  if ltb 0 r then ok (nothing, set_ref f r fs) else ok (closing (fs f), reset f fs)
