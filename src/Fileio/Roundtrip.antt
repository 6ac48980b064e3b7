-- ===== src/Fileio/Roundtrip.antt =====
-- kernel/fs.c: what `writei` writes `readi` reads.
use proj.Common.{
  Run, Option, panic, ◌≤◌, refl, ℕ, ◌+◌, ◌-◌, min, ◌<◌, ◌≡◌, ◌⊎◌, sym, ◌∙◌, subst, Bool, true, ◌&&◌,
  none, some, List, [], ◌∷◌, length, ok, ok-injective, arith, ltb, leb, if◌then◌else◌, Bool-cases,
  inl, inr,
}
use proj.Fs.{Disk, Inode}
use proj.Fs.Own.{Owns}
use proj.Fileio.{Transfer, max_bytes, Copied, readi, writei}
use proj.Fileio.Contents.{byte_at}
use proj.Fileio.Read.{Bytes, Reads, readi-Reads}
use proj.Fileio.Write.{Written, writei-Written}

-- The list holds what the source holds from `i` on.
abbrev pub Sent : (ℕ → ℕ) → ℕ → List ℕ → Type 0
Sent src i [] = Unit
Sent src i (b ∷ bs) = (b ≡ src i) × Sent src (i + 1) bs

Bytes-Sent :
    (src : ℕ → ℕ) (off n i : ℕ) (ip : Inode) (d : Disk) (bs : List ℕ)
    → ((k : ℕ) → k < n → byte_at ip d (off + k) ≡ src k)
    → i + length bs ≤ n
    → Bytes ip d (off + i) bs
    → Sent src i bs
Bytes-Sent src off n i ip d [] put room h = tt
Bytes-Sent src off n i ip d (b ∷ bs) put room h = (
  h.0 ∙ put i (omega (arith, room)),
  Bytes-Sent src off n (i + 1) ip d bs put (omega (arith, room))
      (subst (λ o. Bytes ip d o bs) (omega arith) h.1),
)

-- What a read of `n` bytes that were written gives: them, or the first of them where the disk is
-- full.
abbrev pub Returned : (ℕ → ℕ) → ℕ → Copied × (Inode × Disk) → Type 0
Returned src n ((none, bs), s) = ⊥
Returned src n ((some end, bs), (ip, d)) =
    (length bs ≡ end) × Sent src 0 bs × ((end ≡ n) ⊎ ((y : ℕ) → y < d.size → d.used y ≡ true))

-- No copy fails.
abbrev pub always : ℕ → Bool
always k = true

Reads-Returned :
    (src : ℕ → ℕ) (n off : ℕ) (ip : Inode) (d : Disk) (r : Copied × (Inode × Disk))
    → ((k : ℕ) → k < n → byte_at ip d (off + k) ≡ src k)
    → Reads always n off 0 ip d r
    → Returned src n r
Reads-Returned src n off ip d ((none, bs), s) put (own, size, same, h, ends) = cc
Reads-Returned src n off ip d ((some end, bs), (ip', d')) put (own, size, same, h, ends) = (
  omega (arith, ends.0),
  Bytes-Sent src off n 0 ip d bs put (omega (arith, ends.0, ends.1))
      (subst (λ o. Bytes ip d o bs) (omega arith) h),
  ends.2,
)

-- A write of `n` bytes that is complete: the bytes stand in the file.
Written-bytes :
    (tr : Transfer) (src : ℕ → ℕ) (n off : ℕ) (ip ip' : Inode) (d d' : Disk)
    → off + n ≤ max_bytes
    → Written tr src n off ip d (some n, (ip', d'))
    → (k : ℕ) → k < n
    → byte_at ip' d' (off + k) ≡ src k
Written-bytes tr src n off ip ip' d d' room (extra, own, le, why, more, size, bytes) k lt =
    let whole : n + extra ≡ n = omega (arith, le) in
    let inside : (leb off (off + k) && ltb (off + k) (off + (n + extra))) ≡ true =
      ground (arith, lt, whole) in
    let shift : off + k - off ≡ k = omega arith in
    bytes (off + k) (omega (arith, room, lt)) ∙ rw (inside, shift) refl

size_grows :
    (end old new : ℕ)
    → new ≡ (if ltb old end then end else old)
    → (end ≤ new) × ((new ≤ end) ⊎ (new ≤ old))
size_grows end old new e = elim (Bool-cases (ltb old end)) [
  | inl grows ↦ let is : new ≡ end = ground arith in (omega (arith, is), inl (omega (arith, is)))
  | inr fits ↦ let is : new ≡ old = ground arith in (ground arith, inr (omega (arith, is)))
]

complete :
    (tr : Transfer) (src : ℕ → ℕ) (n off : ℕ) (ip ip' : Inode) (d d' : Disk)
    → Owns ip d
    → off ≤ ip.size
    → off + n ≤ max_bytes
    → writei tr src off n (ip, d) ≡ ok (some n, (ip', d'))
    → Written tr src n off ip d (some n, (ip', d'))
complete tr src n off ip ip' d d' own le room e =
    elim (writei-Written tr src n off ip d own le room) [
      | inl (stuck, k, lt, full) ↦
          let wrong : ◌≡◌ {A = Run (Option ℕ × (Inode × Disk))} (ok (some n, (ip', d'))) panic =
            sym e ∙ stuck in
          cc
      | inr (r, e', w) ↦
          subst (Written tr src n off ip d) (ok-injective r (some n, (ip', d')) (sym e' ∙ e)) w
    ]

-- After `writei` of `n` bytes into a file that owns its blocks returned `n`, `readi` of as many
-- from the same position, where the copies succeed, returns: it gives exactly these bytes, or the
-- first of them if the disk is full.
pub readi-writei :
    (tr : Transfer) (src : ℕ → ℕ) (n off : ℕ) (ip ip' : Inode) (d d' : Disk)
    → Owns ip d
    → off ≤ ip.size
    → ip.size ≤ max_bytes
    → off + n ≤ max_bytes
    → writei tr src off n (ip, d) ≡ ok (some n, (ip', d'))
    → (r : Copied × (Inode × Disk)) × (readi always off n (ip', d') ≡ ok r) × Returned src n r
readi-writei tr src n off ip ip' d d' own le small room e =
    let w = complete tr src n off ip ip' d d' own le room e in
    let size : off + n ≤ ip'.size = (size_grows (off + n) ip.size ip'.size w.5).0 in
    let size' : ip'.size ≤ max_bytes =
      omega (arith, (size_grows (off + n) ip.size ip'.size w.5).1, room, small) in
    let (q, e'', reads) =
      readi-Reads always n off ip' d' w.1 (omega (arith, size)) size' (omega (arith, room)) in
    let all : min n (ip'.size - off) ≡ n = omega (arith, size) in
    (
      q,
      e'',
      Reads-Returned src n off ip' d' q (Written-bytes tr src n off ip ip' d d' room w)
          (subst (λ k. Reads always k off 0 ip' d' q) all reads),
    )
