-- ===== src/Fs/Map.antt =====
-- kernel/fs.c: `bmap`.
use proj.Common.{
  ℕ, ◌+◌, ◌-◌, ◌≤◌, ◌<◌, ◌≡◌, ◌≢◌, ◌⊎◌, refl, sym, ◌∙◌, subst, true, false, ok, arith, ◌==◌, ltb,
  if◌then◌else◌, Bool-cases, inl, inr,
}
use proj.Fs.{
  ndirect, nindirect, Disk, Inode, take_block, set_addr, set_word, keep_addr, keep_word, with_inode,
  balloc, map_addr, map_word, map_indirect, bmap,
}
use proj.Fs.Bitmap.{Took, balloc-Took}
use proj.Fs.Own.{slot, slots, slot-addr, slot-word, Owns, Own-fresh, content, content-fresh}

-- There is an answer, or all blocks of the disk are in use.
abbrev pub Answer : ℕ → Disk → Type 0
Answer a d = (a ≢ 0) ⊎ ((y : ℕ) → y < d.size → d.used y ≡ true)

-- The contents and the size of the file are as they were.
abbrev pub Kept : Inode → Disk → Inode × Disk → Type 0
Kept ip d (ip', d') =
    ((k j : ℕ) → k < slots → content (slot ip' d') d'.byte k j ≡ content (slot ip d) d.byte k j)
    × (ip'.size ≡ ip.size)

-- After a block for place `i` was asked for: the file owns its blocks, the answer stands at the
-- place, the other places are as they were, and so is what the file holds.
abbrev pub Mapped : Inode → Disk → ℕ → ℕ × (Inode × Disk) → Type 0
Mapped ip d i (a, (ip', d')) =
    Owns ip' d'
    × (slot ip' d' i ≡ a)
    × ((k : ℕ) → k < slots → k ≢ i → slot ip' d' k ≡ slot ip d k)
    × Answer a d'
    × Kept ip d (ip', d')

-- Block `b` taken for an address that was 0.
slot-set_addr :
    (ip : Inode) (d : Disk) (i b : ℕ)
    → Owns ip d
    → d.used b ≡ false
    → i ≤ ndirect
    → ip.addrs i ≡ 0
    → (k : ℕ) → k < slots
    → slot (set_addr i b ip) (take_block b d) k ≡ (if k == i then b else slot ip d k)
slot-set_addr ip d i b o free le z k h = ground (arith, o.in_use ndirect)

Mapped-taken :
    (ip : Inode) (d : Disk) (i b : ℕ)
    → Owns ip d
    → d.used b ≡ false
    → i ≤ ndirect
    → ip.addrs i ≡ 0
    → Mapped ip d i (b, (set_addr i b ip, take_block b d))
Mapped-taken ip d i b o free le z =
    let e = slot-set_addr ip d i b o free le z in
    (
      Own-fresh (slot ip d) (slot (set_addr i b ip) (take_block b d)) d.used i b o free e,
      e i (ground arith) ∙ ground arith,
      λ k h ne. e k h ∙ ground arith,
      inl (λ w. ground (arith, o.zero_used)),
      (
        content-fresh (slot ip d) (slot (set_addr i b ip) (take_block b d)) d.used d.byte i b o free
            (slot-addr ip d i le ∙ z) e,
        refl,
      ),
    )

Mapped-balloc :
    (ip : Inode) (d : Disk) (i : ℕ) (r : ℕ × Disk)
    → Took d r
    → Owns ip d
    → i ≤ ndirect
    → ip.addrs i ≡ 0
    → Mapped ip d i (keep_addr i ip r)
Mapped-balloc ip d i (a, d') (inr (z, e, full)) o le e' =
    rw (z, e) (o, ground arith, λ k h ne. refl, inr full, (λ k j h. refl, refl))
Mapped-balloc ip d i (a, d') (inl (e, lt, free, least)) o le e' =
    let nz : (a == 0) ≡ false = ground (arith, o.zero_used) in
    rw (nz, e) (Mapped-taken ip d i a o free le e')

map_addr-Mapped :
    (ip : Inode) (d : Disk) (i : ℕ) → Owns ip d → i ≤ ndirect → Mapped ip d i (map_addr i (ip, d))
unfolding map_addr
map_addr-Mapped ip d i o le = elim (Bool-cases (ip.addrs i == 0)) [
  | inr there ↦
      rw there (o, ground arith, λ k h ne. refl, inl (λ z. ground arith), (λ k j h. refl, refl))
  | inl missing ↦ rw missing (Mapped-balloc ip d i (balloc d) (balloc-Took d) o le (ground arith))
]

abbrev pub word_slot : ℕ → ℕ
word_slot i = ndirect + 1 + i

slot-set_word :
    (ip : Inode) (d : Disk) (i c : ℕ)
    → Owns ip d
    → d.used c ≡ false
    → ip.addrs ndirect ≢ 0
    → (k : ℕ) → k < slots
    → slot ip (set_word (ip.addrs ndirect) i c (take_block c d)) k
      ≡ (if k == word_slot i then c else slot ip d k)
slot-set_word ip d i c o free nz k h = ground (arith, o.in_use ndirect)

Mapped-word :
    (ip : Inode) (d : Disk) (i c : ℕ)
    → Owns ip d
    → d.used c ≡ false
    → i < nindirect
    → ip.addrs ndirect ≢ 0
    → d.word (ip.addrs ndirect) i ≡ 0
    → Mapped ip d (word_slot i) (c, (ip, set_word (ip.addrs ndirect) i c (take_block c d)))
Mapped-word ip d i c o free lt nz missing =
    let d' = set_word (ip.addrs ndirect) i c (take_block c d) in
    let e = slot-set_word ip d i c o free nz in
    (
      Own-fresh (slot ip d) (slot ip d') d.used (word_slot i) c o free e,
      e (word_slot i) (omega (arith, lt)) ∙ ground arith,
      λ k h ne. e k h ∙ ground arith,
      inl (λ w. ground (arith, o.zero_used)),
      (
        content-fresh (slot ip d) (slot ip d') d.used d.byte (word_slot i) c o free
            (slot-word ip d i nz ∙ missing) e,
        refl,
      ),
    )

Mapped-word_balloc :
    (ip : Inode) (d : Disk) (i : ℕ) (r : ℕ × Disk)
    → Took d r
    → Owns ip d
    → i < nindirect
    → ip.addrs ndirect ≢ 0
    → d.word (ip.addrs ndirect) i ≡ 0
    → Mapped ip d (word_slot i) (with_inode ip (keep_word (ip.addrs ndirect) i r))
Mapped-word_balloc ip d i (a, d') (inr (z, e, full)) o lt nz e' =
    rw (z, e) (o, ground arith, λ k h ne. refl, inr full, (λ k j h. refl, refl))
Mapped-word_balloc ip d i (a, d') (inl (e, lt', free, least)) o lt nz e' =
    let off : (a == 0) ≡ false = ground (arith, o.zero_used) in
    rw (off, e) (Mapped-word ip d i a o free lt nz e')

map_word-Mapped :
    (ip : Inode) (d : Disk) (i : ℕ)
    → Owns ip d
    → i < nindirect
    → ip.addrs ndirect ≢ 0
    → Mapped ip d (word_slot i) (with_inode ip (map_word (ip.addrs ndirect) i d))
unfolding map_word
map_word-Mapped ip d i o lt nz = elim (Bool-cases (d.word (ip.addrs ndirect) i == 0)) [
  | inr there ↦
      rw there (o, ground arith, λ k h ne. refl, inl (λ z. ground arith), (λ k j h. refl, refl))
  | inl missing ↦
      rw missing (Mapped-word_balloc ip d i (balloc d) (balloc-Took d) o lt nz (ground arith))
]

-- The place of block `bn` of a file.
abbrev pub place : ℕ → ℕ
place bn = if ltb bn ndirect then bn else bn + 1

-- After `bmap`: as after a block for that place was asked for, but the indirect block may be new.
abbrev pub After : Inode → Disk → ℕ → ℕ × (Inode × Disk) → Type 0
After ip d bn (a, (ip', d')) =
    Owns ip' d'
    × (slot ip' d' (place bn) ≡ a)
    × ((k : ℕ) → k < slots → k ≢ place bn → k ≢ ndirect → slot ip' d' k ≡ slot ip d k)
    × Answer a d'
    × Kept ip d (ip', d')

After-word :
    (ip : Inode) (d : Disk) (bn : ℕ)
    → Owns ip d
    → ndirect ≤ bn
    → bn - ndirect < nindirect
    → ip.addrs ndirect ≢ 0
    → After ip d bn (with_inode ip (map_word (ip.addrs ndirect) (bn - ndirect) d))
After-word ip d bn o le lt nz =
    let (o', e, same, some, kept) = map_word-Mapped ip d (bn - ndirect) o lt nz in
    let at : word_slot (bn - ndirect) ≡ place bn = ground arith in
    let r = map_word (ip.addrs ndirect) (bn - ndirect) d in
    (
      o',
      subst (λ k. slot ip r.1 k ≡ r.0) at e,
      λ k h ne ne'. same k h (λ z. ne (z ∙ at)),
      some,
      kept,
    )

first_full : (b : ℕ) (d : Disk) → (b == 0) ≡ true → Answer b d → Answer 0 d
first_full b d z (inl nz) = absurd (nz (ground (arith, z)))
first_full b d z (inr full) = inr full

After-indirect :
    (ip : Inode) (d : Disk) (bn : ℕ) (r : ℕ × (Inode × Disk))
    → Mapped ip d ndirect r
    → ndirect ≤ bn
    → bn - ndirect < nindirect
    → After ip d bn (map_indirect (bn - ndirect) r)
After-indirect ip d bn (b, (ip', d')) (o, e, same, first, kept) le lt =
    let e' : ip'.addrs ndirect ≡ b = e in
    elim (Bool-cases (b == 0)) [
      | inl z ↦ rw z (o, ground arith, λ k h ne ne'. same k h ne', first_full b d' z first, kept)
      | inr nz ↦
          let (o', at, same', second, kept') = After-word ip' d' bn o le lt (λ z. ground arith) in
          rw (nz, sym e')
            (
              o',
              at,
              λ k h ne ne'. same' k h ne ne' ∙ same k h ne',
              second,
              (λ k j h. kept'.0 k j h ∙ kept.0 k j h, kept'.1 ∙ kept.1),
            )
    ]

-- From a file that owns its blocks, none of them twice, `bmap` of any block below the largest
-- returns, the file still owns its blocks, the answer (0 only if the disk is full) stands at the
-- place of that block, and the other blocks of the file are the same; a new block is zeroed, so
-- that the file holds what it held.
pub bmap-After :
    (ip : Inode) (d : Disk) (bn : ℕ)
    → Owns ip d
    → bn < ndirect + nindirect
    → (r : ℕ × (Inode × Disk)) × (bmap bn (ip, d) ≡ ok r) × After ip d bn r
unfolding bmap
bmap-After ip d bn o lt = elim (Bool-cases (ltb bn ndirect)) [
  | inl direct ↦
      let (o', e, same, some, kept) = map_addr-Mapped ip d bn o (ground arith) in
      (
        map_addr bn (ip, d),
        rw direct refl,
        rw direct (o', e, λ k h ne ne'. same k h ne, some, kept),
      )
  | inr far ↦
      let near : ltb (bn - ndirect) nindirect ≡ true = ground arith in
      (
        map_indirect (bn - ndirect) (map_addr ndirect (ip, d)),
        rw (far, near) refl,
        After-indirect ip d bn (map_addr ndirect (ip, d))
            (map_addr-Mapped ip d ndirect o (ground arith)) (ground arith) (ground arith),
      )
]
