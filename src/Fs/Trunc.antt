-- ===== src/Fs/Trunc.antt =====
-- kernel/fs.c: `itrunc`.
use proj.Common.{
  ℕ, ◌+◌, ◌-◌, ◌≤◌, ◌<◌, ◌≡◌, ◌≢◌, refl, sym, ◌∙◌, subst, Bool, true, false, ok, ◌>>=◌, arith, ◌==◌,
  ltb, put_at, Bool-cases, inl, inr,
}
use proj.Fs.{
  ndirect, nindirect, Disk, Inode, set_addr, bfree, trunc_indirect, trunc_size, itrunc, iupdate,
}
use proj.Fs.Own.{slot-addr, slot-word, slot, slots, Owns}
use proj.Fs.Freed.{
  freed, cleared, used_at, Live, trunc_words-ok, trunc_direct-ok, freed-false, freed-hit,
  freed-miss, cleared-in, cleared-out,
}

-- The file after its direct blocks are freed.
abbrev first_ip : Inode → Inode
first_ip ip = record ip { addrs = cleared ndirect 0 ip.addrs }

abbrev first_used : Inode → Disk → ℕ → Bool
first_used ip d = freed ip.addrs ndirect 0 d.used

Live-direct : (ip : Inode) (d : Disk) → Owns ip d → Live ip.addrs 0 ndirect d.used
Live-direct ip d o = record {
  in_use = λ k h h'. ground (arith, o.in_use k);
  distinct = λ k m h h' g g'. ground (arith, o.distinct k m);
}

-- The direct blocks are not those of the other places.
first_used-slot :
    (ip : Inode) (d : Disk) (k : ℕ)
    → Owns ip d
    → ndirect ≤ k
    → k < slots
    → first_used ip d (slot ip d k) ≡ true
first_used-slot ip d k o h h' =
    freed-miss ip.addrs ndirect 0 d.used (slot ip d k)
      (λ m g g' nz e. ground (arith, o.distinct m k))
    ∙ o.in_use k h'

Live-words :
    (ip : Inode) (d : Disk)
    → Owns ip d
    → ip.addrs ndirect ≢ 0
    → Live (d.word (ip.addrs ndirect)) 0 nindirect (first_used ip d)
Live-words ip d o nz = record {
  in_use = λ k h h'.
      subst (λ a. first_used ip d a ≡ true) (slot-word ip d k nz)
        (first_used-slot ip d (ndirect + 1 + k) o (omega arith) (omega (arith, h')));
  distinct = λ k m h h' g g' nz' e.
      let same =
        o.distinct (ndirect + 1 + k) (ndirect + 1 + m) (omega (arith, h')) (omega (arith, g'))
          (λ z. nz' (sym (slot-word ip d k nz) ∙ z))
          (slot-word ip d k nz ∙ e ∙ sym (slot-word ip d m nz)) in
      omega (arith, same);
}

-- The bitmap after the second loop.
unfoldable second_used : Inode → Disk → ℕ → Bool
second_used ip d = freed (d.word (ip.addrs ndirect)) nindirect 0 (first_used ip d)

-- What `itrunc` leaves.
abbrev pub Emptied : Inode → Disk → Inode × Disk → Type 0
Emptied ip d (ip', d') =
    ((k : ℕ) → k < slots → slot ip' d' k ≡ 0)
    × (ip'.size ≡ 0)
    × (ip'.inum ≡ ip.inum)
    × ((k : ℕ) → k < slots → slot ip d k ≢ 0 → d'.used (slot ip d k) ≡ false)
    × ((x : ℕ) → ((k : ℕ) → k < slots → slot ip d k ≢ 0 → slot ip d k ≢ x) → d'.used x ≡ d.used x)

empty-slot :
    (ip : Inode) (d : Disk)
    → ((k : ℕ) → k < ndirect → ip.addrs k ≡ 0)
    → ip.addrs ndirect ≡ 0
    → (k : ℕ) → slot ip d k ≡ 0
empty-slot ip d z z' k = ground (arith, z k)

slot-none : (ip : Inode) (d : Disk) (k : ℕ) → ip.addrs ndirect ≡ 0 → ndirect ≤ k → slot ip d k ≡ 0
slot-none ip d k z h = ground arith

first_used-addr :
    (ip : Inode) (d : Disk) (k : ℕ)
    → k < ndirect
    → slot ip d k ≢ 0
    → first_used ip d (slot ip d k) ≡ false
first_used-addr ip d k h nz =
    let e = slot-addr ip d k (omega (arith, h)) in
    subst (λ a. first_used ip d a ≡ false) (sym e)
      (freed-hit ip.addrs ndirect 0 d.used k (omega arith) h (λ z. nz (e ∙ z)))

first_used-other :
    (ip : Inode) (d : Disk) (x : ℕ)
    → ((k : ℕ) → k < slots → slot ip d k ≢ 0 → slot ip d k ≢ x)
    → first_used ip d x ≡ d.used x
first_used-other ip d x h = freed-miss ip.addrs ndirect 0 d.used x (λ k g g' nz e.
    let s = slot-addr ip d k (omega (arith, g')) in
    h k (omega (arith, g')) (λ z. nz (sym s ∙ z)) (s ∙ e))

-- The bitmap at the end, where there is an indirect block.
abbrev last_used : Inode → Disk → ℕ → Bool
last_used ip d = put_at (second_used ip d) (ip.addrs ndirect) false

last_used-slot :
    (ip : Inode) (d : Disk) (k : ℕ)
    → ip.addrs ndirect ≢ 0
    → k < slots
    → slot ip d k ≢ 0
    → last_used ip d (slot ip d k) ≡ false
unfolding second_used
last_used-slot ip d k nz h nz' = elim (Bool-cases (ltb k ndirect)) [
  | inl direct ↦
      let e =
        freed-false (d.word (ip.addrs ndirect)) nindirect 0 (first_used ip d) (slot ip d k)
          (first_used-addr ip d k (ground arith) nz') in
      ground arith
  | inr far ↦ elim (Bool-cases (k == ndirect)) [
    | inl last ↦ let e = slot-addr ip d k (ground arith) in ground arith
    | inr word ↦
        let i = k - (ndirect + 1) in
        let at : ndirect + 1 + i ≡ k = ground arith in
        let e : slot ip d k ≡ d.word (ip.addrs ndirect) i =
          subst (λ l. slot ip d l ≡ d.word (ip.addrs ndirect) i) at (slot-word ip d i nz) in
        let e' =
          freed-hit (d.word (ip.addrs ndirect)) nindirect 0 (first_used ip d) i (omega arith)
            (omega (arith, at, h)) (λ z. nz' (e ∙ z)) in
        let e'' : second_used ip d (slot ip d k) ≡ false =
          subst (λ a. freed (d.word (ip.addrs ndirect)) nindirect 0 (first_used ip d) a ≡ false)
            (sym e) e' in
        ground arith
  ]
]

last_used-other :
    (ip : Inode) (d : Disk) (x : ℕ)
    → ip.addrs ndirect ≢ 0
    → ((k : ℕ) → k < slots → slot ip d k ≢ 0 → slot ip d k ≢ x)
    → last_used ip d x ≡ d.used x
unfolding second_used
last_used-other ip d x nz h =
    let e = slot-addr ip d ndirect (omega arith) in
    let off : (x == ip.addrs ndirect) ≡ false = ground (arith, h ndirect) in
    let miss =
      freed-miss (d.word (ip.addrs ndirect)) nindirect 0 (first_used ip d) x (λ k g g' nz' e'.
        let s = slot-word ip d k nz in
        h (ndirect + 1 + k) (omega (arith, g')) (λ z. nz' (sym s ∙ z)) (s ∙ e')) in
    rw off (miss ∙ first_used-other ip d x h)

-- The indirect block is in use until it is freed itself.
second_used-last :
    (ip : Inode) (d : Disk)
    → Owns ip d
    → ip.addrs ndirect ≢ 0
    → second_used ip d (ip.addrs ndirect) ≡ true
unfolding second_used
second_used-last ip d o nz =
    let e = slot-addr ip d ndirect (omega arith) in
    freed-miss (d.word (ip.addrs ndirect)) nindirect 0 (first_used ip d) (ip.addrs ndirect)
      (λ k g g' nz' e'.
        let s = slot-word ip d k nz in
        let same =
          o.distinct (ndirect + 1 + k) ndirect (omega (arith, g')) (omega arith)
            (λ z. nz' (sym s ∙ z)) (s ∙ e' ∙ sym e) in
        absurd (omega (arith, same)))
    ∙ subst (λ a. first_used ip d a ≡ true) e
        (first_used-slot ip d ndirect o (omega arith) (omega arith))

-- What stands after the first loop, freed to the end.
abbrev Ends : Inode → Disk → Type 0
Ends ip d =
    (r : Inode × Disk) × (trunc_indirect (first_ip ip, used_at d (first_used ip d)) >>= trunc_size
      ≡ ok r)
    × Emptied ip d r

small-Ends : (ip : Inode) (d : Disk) → ip.addrs ndirect ≡ 0 → Ends ip d
unfolding iupdate bfree
small-Ends ip d z =
    let same = cleared-out ndirect 0 ip.addrs ndirect (omega arith) in
    let none : (ip.addrs ndirect == 0) ≡ true = ground arith in
    let ip' = record (first_ip ip) { size = 0 } in
    let d' = iupdate ip' (used_at d (first_used ip d)) in
    (
      (ip', d'),
      rw (same, none) refl,
      (
        λ k h.
            empty-slot ip' d' (λ i lt. cleared-in ndirect 0 ip.addrs i (omega arith) lt) (same ∙ z)
              k,
        refl,
        refl,
        λ k h nz. elim (Bool-cases (ltb k ndirect)) [
          | inl direct ↦ first_used-addr ip d k (ground arith) nz
          | inr far ↦ absurd (nz (slot-none ip d k z (ground arith)))
        ],
        λ x h. first_used-other ip d x h,
      ),
    )

large-Ends : (ip : Inode) (d : Disk) → Owns ip d → ip.addrs ndirect ≢ 0 → Ends ip d
unfolding iupdate bfree second_used
large-Ends ip d o nz =
    let same = cleared-out ndirect 0 ip.addrs ndirect (omega arith) in
    let some : (ip.addrs ndirect == 0) ≡ false = ground arith in
    let ip' = record (set_addr ndirect 0 (first_ip ip)) { size = 0 } in
    let d' = iupdate ip' (used_at d (last_used ip d)) in
    let live : freed (d.word (ip.addrs ndirect)) nindirect 0 (first_used ip d) (ip.addrs ndirect)
        ≡ true =
      second_used-last ip d o nz in
    let words =
      trunc_words-ok (d.word (ip.addrs ndirect)) nindirect 0 (used_at d (first_used ip d))
        (Live-words ip d o nz) in
    (
      (ip', d'),
      rw (same, some, words, live) refl,
      (
        λ k h.
            empty-slot ip' d'
              (λ i lt. ground (arith, cleared-in ndirect 0 ip.addrs i (omega arith) lt)) refl k,
        refl,
        refl,
        λ k h nz'. last_used-slot ip d k nz h nz',
        λ x h. last_used-other ip d x nz h,
      ),
    )

-- `itrunc` of a file that owns its blocks, none of them twice, does not panic: the file keeps its
-- number and has no block and size 0, the blocks it had are free, and no other block changes its
-- state.
pub itrunc-Emptied :
    (ip : Inode) (d : Disk)
    → Owns ip d
    → (r : Inode × Disk) × (itrunc (ip, d) ≡ ok r) × Emptied ip d r
unfolding itrunc
itrunc-Emptied ip d o =
    rw (trunc_direct-ok ndirect 0 ip d (Live-direct ip d o))
      (elim (Bool-cases (ip.addrs ndirect == 0)) [
        | inl none ↦ small-Ends ip d (ground arith)
        | inr some ↦ large-Ends ip d o (λ z. ground arith)
      ])
