-- ===== src/Fs/Again.antt =====
-- kernel/fs.c: `bmap` of a block that has an address.
use proj.Common.{
  ℕ, ◌+◌, ◌-◌, ◌<◌, ◌≡◌, ◌≢◌, refl, sym, ◌∙◌, subst, true, false, ok, ok-injective, arith, ◌==◌,
  ltb, Bool-cases, inl, inr,
}
use proj.Fs.{ndirect, nindirect, Disk, Inode, map_addr, map_word, bmap}
use proj.Fs.Own.{slot, Owns}
use proj.Fs.Map.{place, bmap-After}

map_addr-there :
    (ip : Inode) (d : Disk) (i : ℕ) → ip.addrs i ≢ 0 → map_addr i (ip, d) ≡ (ip.addrs i, (ip, d))
unfolding map_addr
map_addr-there ip d i nz = let there : (ip.addrs i == 0) ≡ false = ground arith in rw there refl

map_word-there : (d : Disk) (b i : ℕ) → d.word b i ≢ 0 → map_word b i d ≡ (d.word b i, d)
unfolding map_word
map_word-there d b i nz = let there : (d.word b i == 0) ≡ false = ground arith in rw there refl

-- Where a block has an address, `bmap` returns it and changes nothing.
pub bmap-slot :
    (ip : Inode) (d : Disk) (bn : ℕ)
    → bn < ndirect + nindirect
    → slot ip d (place bn) ≢ 0
    → bmap bn (ip, d) ≡ ok (slot ip d (place bn), (ip, d))
unfolding bmap
bmap-slot ip d bn lt nz = elim (Bool-cases (ltb bn ndirect)) [
  | inl direct ↦
      let inside : ltb bn (ndirect + 1) ≡ true = ground arith in
      let there = map_addr-there ip d bn (λ z. ground arith) in rw (direct, inside, there) refl
  | inr far ↦
      let near : ltb (bn - ndirect) nindirect ≡ true = ground arith in
      let out : ltb (bn + 1) (ndirect + 1) ≡ false = ground arith in
      let at : bn + 1 - (ndirect + 1) ≡ bn - ndirect = ground arith in
      let has : (ip.addrs ndirect == 0) ≡ false = ground arith in
      let there = map_addr-there ip d ndirect (λ z. ground arith) in
      let there' = map_word-there d (ip.addrs ndirect) (bn - ndirect) (λ z. ground arith) in
      rw (far, near, out, at, there, has, there') refl
]

-- Once `bmap` returned the address of a block of a file that owns its blocks, it returns the same
-- address for that block and changes neither the file nor the disk.
pub bmap-bmap :
    (ip ip' : Inode) (d d' : Disk) (bn a : ℕ)
    → Owns ip d
    → bn < ndirect + nindirect
    → bmap bn (ip, d) ≡ ok (a, (ip', d'))
    → a ≢ 0
    → bmap bn (ip', d') ≡ ok (a, (ip', d'))
bmap-bmap ip ip' d d' bn a o lt e nz =
    let (r, e', (o', at, same, some, kept)) = bmap-After ip d bn o lt in
    let r_is : r ≡ (a, (ip', d')) = ok-injective r (a, (ip', d')) (sym e' ∙ e) in
    let at' : slot ip' d' (place bn) ≡ a = subst (λ z. slot z.1.0 z.1.1 (place bn) ≡ z.0) r_is at in
    subst (λ z. bmap bn (ip', d') ≡ ok (z, (ip', d'))) at'
      (bmap-slot ip' d' bn lt (λ z. nz (sym at' ∙ z)))
