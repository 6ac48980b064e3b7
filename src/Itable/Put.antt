-- ===== src/Itable/Put.antt =====
-- kernel/fs.c: `iput`.
use proj.Common.{
  ℕ, ◌+◌, ◌-◌, ◌%◌, ◌^◌, ◌<◌, ◌≡◌, ◌≢◌, refl, ap, subst, fun_ext, Bool, true, false, ◌&&◌, ok,
  arith, ◌==◌, ==_refl, put_at, Bool-cases, inl, inr,
}
use proj.Fs.{Inode, Disk, iupdate}
use proj.Fs.Own.{slot, slots, Owns}
use proj.Fs.Trunc.{Emptied, itrunc-Emptied}
use proj.Itable.{Itable, incref, decref, discard, free_last, iput, idup}
use proj.Itable.Get.{Unique}
use proj.Sleeplock.{acquiresleep}

-- It is the last reference to an inode without links.
abbrev pub is_last : ℕ → Itable → Bool
is_last i t = (t.ref i == 1) && t.valid i && ((t.ip i).nlink == 0)

free_last-ok :
    (pid i : ℕ) (t : Itable)
    → (t.lock i).locked ≡ false
    → Owns (t.ip i) t.disk
    → (lk : _) × (r : Inode × Disk) × (free_last pid i t
        ≡ ok (discard i (record t { lock = put_at t.lock i lk }) r))
      × Emptied (t.ip i) t.disk r
unfolding free_last acquiresleep
free_last-ok pid i t unlocked o =
    let (r, e, empty) = itrunc-Emptied (t.ip i) t.disk o in
    (record { locked = true; pid = pid }, r, rw (unlocked, e) refl, empty)

-- The entry lost a reference, and the others keep theirs.
abbrev pub Put : ℕ → Itable → Itable → Type 0
Put i t t' =
    Unique t'
    × (t'.ref i ≡ t.ref i - 1)
    × ((j : ℕ) → j ≢ i → (t'.ref j ≡ t.ref j) × (t'.dev j ≡ t.dev j) × (t'.ip j ≡ t.ip j))

Put-discard :
    (i : ℕ) (t : Itable) (lk : _) (r : Inode × Disk)
    → Unique t
    → t.ref i ≡ 1
    → r.0.inum ≡ (t.ip i).inum
    → Put i t (decref i (discard i (record t { lock = lk }) r))
Put-discard i t lk r u one same = (
  λ j k hj hk rj rk d e. ground (arith, u j k hj hk),
  ground (arith, one),
  λ j ne. let off : (j == i) ≡ false = ground arith in rw off (refl, refl, refl),
)

Put-decref : (i : ℕ) (t : Itable) → Unique t → 0 < t.ref i → t.ref i < 2 ^ 32 → Put i t (decref i t)
Put-decref i t u pos small = (
  λ j k hj hk rj rk d e. u j k hj hk (ground (arith, pos)) (ground (arith, pos)) d e,
  ground arith,
  λ j ne. (ground arith, refl, refl),
)

-- Where no inode has two entries, the inode owns its blocks, and nobody holds the lock of an inode
-- with one reference: `iput` of an entry that is referred to returns, the entry has one reference
-- less, no inode has two entries, and the other entries keep their references and their inodes.
pub iput-Put :
    (pid i : ℕ) (t : Itable)
    → Unique t
    → Owns (t.ip i) t.disk
    → 0 < t.ref i
    → t.ref i < 2 ^ 32
    → (t.ref i ≡ 1 → (t.lock i).locked ≡ false)
    → (t' : Itable) × (iput pid i t ≡ ok t') × Put i t t'
unfolding iput
iput-Put pid i t u o pos small alone = elim (Bool-cases (is_last i t)) [
  | inr more ↦ (decref i t, rw more refl, Put-decref i t u pos small)
  | inl last ↦
      let one : t.ref i ≡ 1 = ground arith in
      let (lk, r, e, empty) = free_last-ok pid i t (alone one) o in
      (
        decref i (discard i (record t { lock = put_at t.lock i lk }) r),
        rw (last, e) refl,
        Put-discard i t (put_at t.lock i lk) r u one empty.2,
      )
]

decref-one : (i : ℕ) (t : Itable) → t.ref i ≡ 1 → (decref i t).ref i ≡ 0
decref-one i t one = ground (arith, one)

discard-type :
    (i : ℕ) (t : Itable) (r : Inode × Disk) → ((discard i t r).disk.dinode r.0.inum).type ≡ 0
unfolding iupdate
discard-type i t r = rw (==_refl r.0.inum) refl

-- Where the reference is the entry's last, the inode has been read from the disk and has no links,
-- its lock is free, and it owns its blocks, `iput` returns, the entry is free, the inode is free on
-- the disk, and the blocks of the file are free.
pub iput-last :
    (pid i : ℕ) (t : Itable)
    → Owns (t.ip i) t.disk
    → (t.lock i).locked ≡ false
    → is_last i t ≡ true
    → (t' : Itable) × (iput pid i t ≡ ok t')
      × (t'.ref i ≡ 0)
      × ((t'.disk.dinode (t.ip i).inum).type ≡ 0)
      × ((k : ℕ)
          → k < slots
          → slot (t.ip i) t.disk k ≢ 0
          → t'.disk.used (slot (t.ip i) t.disk k) ≡ false)
unfolding iput
iput-last pid i t o unlocked last =
    let one : t.ref i ≡ 1 = ground arith in
    let (lk, r, e, empty) = free_last-ok pid i t unlocked o in
    let t' = record t { lock = put_at t.lock i lk } in
    (
      decref i (discard i t' r),
      rw (last, e) refl,
      decref-one i (discard i t' r) one,
      subst (λ n. ((discard i t' r).disk.dinode n).type ≡ 0) empty.2 (discard-type i t' r),
      empty.3,
    )

-- `iput` undoes `idup`.
pub iput-idup :
    (pid i : ℕ) (t : Itable) → 0 < t.ref i → t.ref i + 1 < 2 ^ 32 → iput pid i (idup i t) ≡ ok t
unfolding iput idup
iput-idup pid i t pos small =
    let more : is_last i (incref i t) ≡ false = ground arith in
    let back : put_at (put_at t.ref i ((t.ref i + 1) % 2 ^ 32)) i
          ((put_at t.ref i ((t.ref i + 1) % 2 ^ 32) i + 2 ^ 32 - 1) % 2 ^ 32)
        ≡ t.ref =
      fun_ext (λ j. ground arith) in
    rw more (ap (λ f. ok (record t { ref = f })) back)
