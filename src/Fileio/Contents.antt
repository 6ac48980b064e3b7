-- ===== src/Fileio/Contents.antt =====
-- kernel/fs.c: the bytes of a file by their position.
use proj.Common.{
  ◌≤◌, refl, ℕ, ◌+◌, ◌-◌, ◌/◌, ◌%◌, ◌<◌, ◌≡◌, ◌≢◌, sym, false, ◌&&◌, arith, ◌==◌, ==_refl, ltb, leb,
  if◌then◌else◌, Bool-cases, inl, inr,
}
use proj.Fs.{Disk, Inode}
use proj.Fs.Own.{slot, slots, Owns, content}
use proj.Fs.Map.{place}
use proj.Fileio.{bsize, max_bytes, put_bytes}

-- Byte `o` of the file, 0 where no block is.
abbrev pub byte_at : Inode → Disk → ℕ → ℕ
byte_at ip d o = content (slot ip d) d.byte (place (o / bsize)) (o % bsize)

pub place-slots : (o : ℕ) → o < max_bytes → place (o / bsize) < slots
place-slots o h = ground (arith, h)

pub place-injective : (a b : ℕ) → place a ≡ place b → a ≡ b
place-injective a b e = ground (arith, e)

-- A range that lies in one block, by the positions in the block and in the file.
same_range :
    (off m o : ℕ)
    → o / bsize ≡ off / bsize
    → (leb (off % bsize) (o % bsize) && ltb (o % bsize) (off % bsize + m))
      ≡ (leb off o && ltb o (off + m))
same_range off m o same =
    let low : leb (off % bsize) (o % bsize) ≡ leb off o = ground (arith, same) in
    let high : ltb (o % bsize) (off % bsize + m) ≡ ltb o (off + m) = ground (arith, same) in
    rw (low, high) refl

other_range :
    (off m o : ℕ)
    → o / bsize ≢ off / bsize
    → off % bsize + m ≤ bsize
    → (leb off o && ltb o (off + m)) ≡ false
other_range off m o other fits = ground (arith, other, fits)

-- Bytes put into the block of position `off` are those of the file there, and no others change.
pub put_bytes-byte_at :
    (src : ℕ → ℕ) (tot off m : ℕ) (ip : Inode) (d : Disk)
    → Owns ip d
    → slot ip d (place (off / bsize)) ≢ 0
    → off % bsize + m ≤ bsize
    → off < max_bytes
    → (o : ℕ) → o < max_bytes
    → byte_at ip (put_bytes src tot (slot ip d (place (off / bsize))) (off % bsize) m d) o
      ≡ (if leb off o && ltb o (off + m) then src (tot + (o - off)) else byte_at ip d o)
put_bytes-byte_at src tot off m ip d own nz fits lt o lt' =
    elim (Bool-cases (o / bsize == off / bsize)) [
      | inl here ↦
          let same : o / bsize ≡ off / bsize = ground arith in
          let nz' : (slot ip d (place (off / bsize)) == 0) ≡ false = ground (arith, nz) in
          let shift : o % bsize - off % bsize ≡ o - off = omega (arith, same) in
          rw (same_range off m o same, shift, same, nz', ==_refl (slot ip d (place (off / bsize))))
            refl
      | inr there ↦
          let other : o / bsize ≢ off / bsize = λ e. ground arith in
          let p = place-slots o lt' in
          let q = place-slots off lt in
          let apart : slot ip d (place (off / bsize)) ≢ slot ip d (place (o / bsize)) = λ e. other (
            sym (
              place-injective (off / bsize) (o / bsize)
                (own.distinct (place (off / bsize)) (place (o / bsize)) q p nz e))) in
          let miss : (slot ip d (place (o / bsize)) == slot ip d (place (off / bsize))) ≡ false =
            ground (arith, apart) in
          rw (other_range off m o other fits, miss) refl
    ]
