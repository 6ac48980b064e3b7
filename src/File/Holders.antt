-- ===== src/File/Holders.antt =====
-- kernel/file.c: who holds which file.
use proj.Common.{
  ℕ, zero, suc, ◌+◌, ◌-◌, ◌%◌, ◌^◌, ◌≤◌, ◌<◌, ◌≡◌, refl, Bool, false, Option, none, some, List, [],
  ◌∷◌, length, count, Run, ok, arith, ltb, ◌==◌, if◌then◌else◌, Bool-cases, inl, inr,
}
use proj.File.{
  File, FileType, fd_none, fd_pipe, fd_inode, fd_device, close_pipe, put_inode, Files, nfile,
  Closing, nothing, closing, set_ref, reset, unreferenced, filealloc, filealloc_loop, filedup,
  fileclose,
}

-- Each file has as many references as the holders of open files have of it, and there are not so
-- many that they do not fit an int.
pub record Counted (held : List ℕ) (fs : Files) : Type 0 where
  pub counted : (f : ℕ) → (fs f).ref ≡ count f held
  pub few : length held + 1 < 2 ^ 31

count-le-length : (f : ℕ) (held : List ℕ) → count f held ≤ length held
count-le-length f [] = omega arith
count-le-length f (g ∷ gs) = ground (arith, count-le-length f gs)

-- Where the references of the files are those of their holders, `filedup` of a file that is held
-- returns, and counts one holder more.
pub filedup-Counted :
    (f : ℕ) {held : List ℕ} {fs : Files}
    → Counted held fs
    → 0 < count f held
    → length held + 2 < 2 ^ 31
    → (fs' : Files) × (filedup f fs ≡ ok fs') × Counted (f ∷ held) fs'
unfolding filedup
filedup-Counted f {held} {fs} c some_holder room =
    let open_file : unreferenced (fs f).ref ≡ false =
      ground (arith, c.counted f, c.few, count-le-length f held) in
    (
      set_ref f (((fs f).ref + 1) % 2 ^ 32) fs,
      rw open_file refl,
      record {
        counted = λ g. ground (arith, c.counted f, c.counted g, c.few, count-le-length f held);
        few = omega arith;
      },
    )

-- What stands behind an open file, and has to be closed or given back with it.
abbrev pub behind : FileType → ℕ → Bool → ℕ → Closing
behind fd_none pipe writable ip = nothing
behind fd_pipe pipe writable ip = close_pipe pipe writable
behind fd_inode pipe writable ip = put_inode ip
behind fd_device pipe writable ip = put_inode ip

closing-type :
    (t : FileType) (ff : File)
    → closing (record ff { type_of = t }) ≡ behind t ff.pipe ff.writable ff.ip
closing-type fd_none ff = refl
closing-type fd_pipe ff = refl
closing-type fd_inode ff = refl
closing-type fd_device ff = refl

closing-behind : (ff : File) → closing ff ≡ behind ff.type_of ff.pipe ff.writable ff.ip
closing-behind ff = closing-type ff.type_of ff

-- What `fileclose` promises of a file that one more holder than the list had open.
abbrev pub Closed : ℕ → List ℕ → Files → Run (Closing × Files) → Type 0
Closed f held fs r =
    (k : Closing) × (fs' : Files) × (r ≡ ok (k, fs'))
    × Counted held fs'
    × (k ≡ (
        if count f held == 0
        then behind (fs f).type_of (fs f).pipe (fs f).writable (fs f).ip
        else nothing))

-- Where the references of the files are those of their holders, `fileclose` by a holder returns,
-- takes that one reference, and exactly when no other holder is left closes that end of the pipe or
-- gives back the inode behind the file.
pub fileclose-Closed :
    (f : ℕ) {held : List ℕ} {fs : Files} → Counted (f ∷ held) fs → Closed f held fs (fileclose f fs)
unfolding fileclose
fileclose-Closed f {held} {fs} c =
    let open_file : unreferenced (fs f).ref ≡ false =
      ground (arith, c.counted f, c.few, count-le-length f held) in
    elim (Bool-cases (ltb 0 ((fs f).ref - 1))) [
      | inl others ↦ (
        nothing,
        set_ref f ((fs f).ref - 1) fs,
        rw (open_file, others) refl,
        record {
          counted = λ g. ground (arith, c.counted f, c.counted g);
          few = omega (arith, c.few);
        },
        ground (arith, c.counted f),
      )
      | inr last ↦ (
        behind (fs f).type_of (fs f).pipe (fs f).writable (fs f).ip,
        reset f fs,
        rw (open_file, last, closing-behind (fs f)) refl,
        record {
          counted = λ g. ground (arith, c.counted f, c.counted g);
          few = omega (arith, c.few);
        },
        ground (arith, c.counted f),
      )
    ]

-- What `filealloc` promises.
abbrev pub Alloc : ℕ → ℕ → List ℕ → Files → Option ℕ × Files → Type 0
Alloc n i held fs (some f, fs') = (count f held ≡ 0) × (f < i + n) × Counted (f ∷ held) fs'
Alloc n i held fs (none, fs') = (fs' ≡ fs) × ((f : ℕ) → i ≤ f → f < i + n → 0 < count f held)

Alloc-later :
    (n i : ℕ) (held : List ℕ) (fs : Files) (r : Option ℕ × Files)
    → 0 < count i held
    → Alloc n (i + 1) held fs r
    → Alloc (suc n) i held fs r
Alloc-later n i held fs (some f, fs') busy (fresh, lt, c) = (fresh, omega arith, c)
Alloc-later n i held fs (none, fs') busy (e, full) = (
  e,
  λ f lo hi. elim (Bool-cases (i == f)) [
    | inl here ↦ let at : i ≡ f = ground arith in rw (← at) busy
    | inr later ↦ full f (ground arith) (omega arith)
  ],
)

filealloc_loop-Alloc :
    (n i : ℕ) {held : List ℕ} {fs : Files}
    → Counted held fs
    → length held + 2 < 2 ^ 31
    → Alloc n i held fs (filealloc_loop n i fs)
unfolding filealloc_loop
filealloc_loop-Alloc zero i c room = (refl, λ f lo hi. absurd (omega arith))
filealloc_loop-Alloc (suc n) i {held} {fs} c room = elim (Bool-cases ((fs i).ref == 0)) [
  | inl free ↦
      let none_held : count i held ≡ 0 = ground (arith, c.counted i) in
      rw free (
        none_held,
        omega arith,
        record { counted = λ g. ground (arith, c.counted g); few = omega arith },
      )
  | inr busy ↦ rw busy (
      Alloc-later n i held fs (filealloc_loop n (i + 1) fs) (ground (arith, c.counted i))
        (filealloc_loop-Alloc n (i + 1) c room))
]

-- Where the references of the files are those of their holders, `filealloc` hands out a file of the
-- table that nobody holds, with one reference; or it fails and changes nothing, and then all the
-- files of the table are held.
pub filealloc-Alloc :
    {held : List ℕ} {fs : Files}
    → Counted held fs
    → length held + 2 < 2 ^ 31
    → Alloc nfile 0 held fs (filealloc fs)
unfolding filealloc
filealloc-Alloc c room = filealloc_loop-Alloc nfile 0 c room
