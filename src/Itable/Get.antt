-- ===== src/Itable/Get.antt =====
-- kernel/fs.c: `iget`.
use proj.Common.{
  ℕ, zero, suc, ◌+◌, ◌^◌, ◌<◌, ◌≡◌, ◌≢◌, refl, subst, true, false, Option, none, some, Run, ok,
  panic, arith, ◌==◌, Bool-cases, inl, inr, ◌⊎◌,
}
use proj.Itable.{
  ninode, Itable, Search, cached, free, or_first, is_inode, iget_loop, incref, recycle, iget_take,
  iget,
}

-- An inode that is referred to has one entry of the table.
abbrev pub Unique : Itable → Type 0
Unique t =
    (i j : ℕ)
    → i < ninode
    → j < ninode
    → 0 < t.ref i
    → 0 < t.ref j
    → t.dev i ≡ t.dev j
    → (t.ip i).inum ≡ (t.ip j).inum
    → i ≡ j

-- What the loop finds among the entries below `e`.
abbrev Finds : ℕ → ℕ → Itable → ℕ → Search → Type 0
Finds dev inum t e (cached i) = (i < e) × (is_inode dev inum t i ≡ true)
Finds dev inum t e (free (some i)) =
    (i < e) × (t.ref i ≡ 0) × ((j : ℕ) → j < e → is_inode dev inum t j ≡ false)
Finds dev inum t e (free none) = (j : ℕ) → j < e → (t.ref j ≢ 0) × (is_inode dev inum t j ≡ false)

below-next : {P : ℕ → Type 0} (i : ℕ) → ((j : ℕ) → j < i → P j) → P i → (j : ℕ) → j < i + 1 → P j
below-next {P} i h here j lt = elim (Bool-cases (j == i)) [
  | inl e ↦ let same : i ≡ j = ground arith in subst P same here
  | inr ne ↦ h j (ground arith)
]

Finds-next :
    (dev inum : ℕ) (t : Itable) (i : ℕ) (empty : Option ℕ)
    → Finds dev inum t i (free empty)
    → is_inode dev inum t i ≡ false
    → Finds dev inum t (i + 1) (free (or_first empty (t.ref i == 0) i))
Finds-next dev inum t i (some e) h other =
    (omega (arith, h.0), h.1, below-next {P = λ j. is_inode dev inum t j ≡ false} i h.2 other)
Finds-next dev inum t i none h other = elim (Bool-cases (t.ref i == 0)) [
  | inl z ↦ rw z (
    omega arith,
    ground arith,
    below-next {P = λ j. is_inode dev inum t j ≡ false} i (λ j lt. (h j lt).1) other,
  )
  | inr nz ↦ rw nz (
      below-next {P = λ j. (t.ref j ≢ 0) × (is_inode dev inum t j ≡ false)} i h
        (λ z. ground arith, other))
]

iget_loop-Finds :
    (dev inum : ℕ) (t : Itable) (n i : ℕ) (empty : Option ℕ)
    → Finds dev inum t i (free empty)
    → Finds dev inum t (i + n) (iget_loop dev inum t n i empty)
unfolding iget_loop
iget_loop-Finds dev inum t zero i empty h =
    subst (λ e. Finds dev inum t e (free empty)) (omega arith) h
iget_loop-Finds dev inum t (suc n) i empty h = elim (Bool-cases (is_inode dev inum t i)) [
  | inl here ↦ rw here (omega arith, here)
  | inr there ↦ rw there (
      subst
        (λ e. Finds dev inum t e (iget_loop dev inum t n (i + 1) (or_first empty (t.ref i == 0) i)))
        (omega arith)
        (iget_loop-Finds dev inum t n (i + 1) (or_first empty (t.ref i == 0) i)
          (Finds-next dev inum t i empty h there)))
]

-- The entry that `iget` returns is that inode's and is referred to, no inode has two entries, and
-- the other entries are as they were.
abbrev pub Got : ℕ → ℕ → Itable → ℕ × Itable → Type 0
Got dev inum t (i, t') =
    Unique t'
    × (i < ninode)
    × (t'.dev i ≡ dev)
    × ((t'.ip i).inum ≡ inum)
    × (t'.ref i ≡ t.ref i + 1)
    × ((j : ℕ) → j ≢ i → (t'.ref j ≡ t.ref j) × (t'.dev j ≡ t.dev j) × (t'.ip j ≡ t.ip j))

Got-cached :
    (dev inum : ℕ) (t : Itable) (i : ℕ)
    → Unique t
    → t.ref i + 1 < 2 ^ 32
    → i < ninode
    → is_inode dev inum t i ≡ true
    → Got dev inum t (i, incref i t)
Got-cached dev inum t i u small lt h =
    let pos : 0 < t.ref i = ground arith in
    (
      λ j k hj hk rj rk d e. u j k hj hk (ground (arith, pos)) (ground (arith, pos)) d e,
      lt,
      ground arith,
      ground arith,
      ground arith,
      λ j ne. (ground arith, refl, refl),
    )

Got-recycle :
    (dev inum : ℕ) (t : Itable) (i : ℕ)
    → Unique t
    → i < ninode
    → t.ref i ≡ 0
    → ((j : ℕ) → j < ninode → is_inode dev inum t j ≡ false)
    → Got dev inum t (i, recycle dev inum i t)
Got-recycle dev inum t i u lt z new = (
  λ j k hj hk rj rk d e. ground (arith, u j k hj hk, new j hj, new k hk),
  lt,
  ground arith,
  ground arith,
  ground (arith, z),
  λ j ne. let off : (j == i) ≡ false = ground arith in rw off (refl, refl, refl),
)

-- An entry is returned, or every entry is referred to, none of them is the inode's, and it is a
-- panic.
abbrev pub Gets : ℕ → ℕ → Itable → Run (ℕ × Itable) → Type 0
Gets dev inum t r =
    ((i : ℕ) × (t' : Itable) × (r ≡ ok (i, t')) × Got dev inum t (i, t'))
    ⊎ (r ≡ panic) × ((j : ℕ) → j < ninode → (t.ref j ≢ 0) × (is_inode dev inum t j ≡ false))

iget_take-Gets :
    (dev inum : ℕ) (t : Itable) (s : Search)
    → Unique t
    → ((j : ℕ) → t.ref j + 1 < 2 ^ 32)
    → Finds dev inum t ninode s
    → Gets dev inum t (iget_take dev inum t s)
iget_take-Gets dev inum t (cached i) u small f =
    inl (i, incref i t, refl, Got-cached dev inum t i u (small i) f.0 f.1)
iget_take-Gets dev inum t (free (some i)) u small f =
    inl (i, recycle dev inum i t, refl, Got-recycle dev inum t i u f.0 f.1 f.2)
iget_take-Gets dev inum t (free none) u small f = inr (refl, f)

-- From a table where no inode has two entries and no reference count is at its limit, either `iget`
-- returns the entry of the inode asked for with one reference more than that entry had, still no
-- inode has two entries, and the other entries keep their references and their inodes; or every
-- entry is referred to, none is for the inode, and `iget` panics.
pub iget-Got :
    (dev inum : ℕ) (t : Itable)
    → Unique t
    → ((j : ℕ) → t.ref j + 1 < 2 ^ 32)
    → Gets dev inum t (iget dev inum t)
unfolding iget
iget-Got dev inum t u small =
    iget_take-Gets dev inum t (iget_loop dev inum t ninode 0 none) u small
      (iget_loop-Finds dev inum t ninode 0 none (λ j h. absurd (omega arith)))
