-- ===== src/Fileio/Pieces.antt =====
-- kernel/fs.c: what a part of a write leaves.
use proj.Common.{
  ◌≤◌, refl, ℕ, ◌+◌, ◌-◌, ◌<◌, ◌≡◌, ◌≢◌, ◌⊎◌, ap, ◌∙◌, true, false, ◌&&◌, arith, ◌==◌, ltb, leb,
  if◌then◌else◌, Bool-cases, inl, inr,
}
use proj.Fs.{Disk, Inode}
use proj.Fs.Own.{Owns}
use proj.Fs.Map.{Answer}
use proj.Fileio.{Transfer, max_bytes}
use proj.Fileio.Contents.{byte_at}

-- The bytes of the source from `tot` to `end` stand in the file from `off` on. What stopped the loop
-- before all `n` is a full disk or a copy that failed, and in this case alone as many bytes more
-- stand there as it has copied. No other byte of the file is changed.
abbrev pub Wrote : Transfer → (ℕ → ℕ) → ℕ → ℕ → ℕ → Inode → Disk → ℕ × (Inode × Disk) → Type 0
Wrote tr src n off tot ip d (end, (ip', d')) =
    (extra : ℕ) × Owns ip' d'
    × (tot ≤ end)
    × (end + extra ≤ n)
    × (ip'.size ≡ ip.size)
    × ((end ≡ n) ⊎ (tr.copied end ≡ false) ⊎ ((y : ℕ) → y < d'.size → d'.used y ≡ true))
    × ((extra ≡ 0) ⊎ (tr.copied end ≡ false) × (extra ≤ tr.part end))
    × ((o : ℕ)
        → o < max_bytes
        → byte_at ip' d' o ≡ (
            if leb off o && ltb o (off + (end + extra - tot))
            then src (tot + (o - off))
            else byte_at ip d o))

-- Two pieces written one after the other.
two_pieces :
    (src : ℕ → ℕ) (off tot m end o v : ℕ)
    → tot + m ≤ end
    → (if leb (off + m) o && ltb o (off + m + (end - (tot + m)))
        then src (tot + m + (o - (off + m)))
        else (if leb off o && ltb o (off + m) then src (tot + (o - off)) else v))
      ≡ (if leb off o && ltb o (off + (end - tot)) then src (tot + (o - off)) else v)
two_pieces src off tot m end o v h = elim (Bool-cases (leb (off + m) o)) [
  | inl high ↦
      let shift : tot + m + (o - (off + m)) ≡ tot + (o - off) = ground arith in
      let low : leb off o ≡ true = ground arith in
      let past : ltb o (off + m) ≡ false = ground arith in
      let e : off + m + (end - (tot + m)) ≡ off + (end - tot) = omega (arith, h) in
      rw (high, shift, low, past, e) refl
  | inr low ↦
      let first : ltb o (off + m) ≡ true = ground arith in
      let both : ltb o (off + (end - tot)) ≡ true = ground (arith, h) in rw (low, first, both) refl
]

-- The loop stops where it is.
pub Wrote-nothing :
    (tr : Transfer) (src : ℕ → ℕ) (n off tot : ℕ) (ip ip' : Inode) (d d' : Disk)
    → Owns ip' d'
    → tot ≤ n
    → ip'.size ≡ ip.size
    → (tot ≡ n) ⊎ (tr.copied tot ≡ false) ⊎ ((y : ℕ) → y < d'.size → d'.used y ≡ true)
    → ((o : ℕ) → o < max_bytes → byte_at ip' d' o ≡ byte_at ip d o)
    → Wrote tr src n off tot ip d (tot, (ip', d'))
Wrote-nothing tr src n off tot ip ip' d d' own le size why same = (
  0,
  own,
  omega arith,
  omega (arith, le),
  size,
  why,
  inl refl,
  λ o lt.
      let empty : (leb off o && ltb o (off + (tot + 0 - tot))) ≡ false = ground arith in
      rw empty (same o lt),
)

-- The loop stops where a copy failed after `extra` bytes.
pub Wrote-part :
    (tr : Transfer) (src : ℕ → ℕ) (n off tot extra : ℕ) (ip ip' : Inode) (d d' : Disk)
    → Owns ip' d'
    → tot + extra ≤ n
    → ip'.size ≡ ip.size
    → tr.copied tot ≡ false
    → extra ≤ tr.part tot
    → ((o : ℕ)
        → o < max_bytes
        → byte_at ip' d' o
          ≡ (if leb off o && ltb o (off + extra) then src (tot + (o - off)) else byte_at ip d o))
    → Wrote tr src n off tot ip d (tot, (ip', d'))
Wrote-part tr src n off tot extra ip ip' d d' own le size bad few put = (
  extra,
  own,
  omega arith,
  le,
  size,
  inr (inl bad),
  inr (bad, few),
  λ o lt. let e : tot + extra - tot ≡ extra = omega arith in rw e (put o lt),
)

-- The loop goes on after `m` bytes.
pub Wrote-more :
    (tr : Transfer) (src : ℕ → ℕ) (n off tot m : ℕ) (ip ip' : Inode) (d d' : Disk)
    (r : ℕ × (Inode × Disk))
    → ip'.size ≡ ip.size
    → ((o : ℕ)
        → o < max_bytes
        → byte_at ip' d' o
          ≡ (if leb off o && ltb o (off + m) then src (tot + (o - off)) else byte_at ip d o))
    → Wrote tr src n (off + m) (tot + m) ip' d' r
    → Wrote tr src n off tot ip d r
Wrote-more tr src n off tot m ip ip' d d' (end, (ip'', d'')) size put
      (extra, own, ge, le, size', why, more, bytes) =
    (
      extra,
      own,
      omega (arith, ge),
      le,
      size' ∙ size,
      why,
      more,
      λ o lt.
          bytes o lt
          ∙ ap
              (λ v.
                if leb (off + m) o && ltb o (off + m + (end + extra - (tot + m)))
                then src (tot + m + (o - (off + m)))
                else v)
              (put o lt)
          ∙ two_pieces src off tot m (end + extra) o (byte_at ip d o) (omega (arith, ge)),
    )

pub unanswered :
    (a : ℕ) (d : Disk) → (a == 0) ≡ true → Answer a d → (y : ℕ) → y < d.size → d.used y ≡ true
unanswered a d z (inl nz) = absurd (nz (ground (arith, z)))
unanswered a d z (inr full) = full

pub nonzero : (a : ℕ) → (a == 0) ≡ false → a ≢ 0
nonzero a h z = ground (arith, h)
