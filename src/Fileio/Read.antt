-- ===== src/Fileio/Read.antt =====
-- kernel/fs.c: `readi`.
use proj.Common.{
  ◌≤◌, refl, ℕ, zero, suc, ◌+◌, ◌-◌, ◌*◌, ◌/◌, ◌%◌, ◌^◌, min, ◌<◌, ◌≡◌, ◌≢◌, ◌⊎◌, ap, ◌∙◌, subst,
  Bool, true, false, Option, none, some, List, [], ◌∷◌, ◌++◌, length, length-append, Run, ok, arith,
  ◌==◌, ltb, if◌then◌else◌, Bool-cases, inl, inr,
}
use proj.Fs.{Disk, Inode}
use proj.Fs.Own.{slot, Owns}
use proj.Fs.Map.{place, After, bmap-After}
use proj.Fileio.{
  bsize, max_bytes, chunk, bytes_from, Copied, prepend, readi_body, readi_loop, readi,
}
use proj.Fileio.Contents.{byte_at, place-slots}
use proj.Fileio.Pieces.{unanswered, nonzero}

length-bytes_from : (f : ℕ → ℕ) (i m : ℕ) → length (bytes_from f i m) ≡ m
length-bytes_from f i zero = refl
length-bytes_from f i (suc m) = ap suc (length-bytes_from f (i + 1) m)

-- The list holds the bytes of the file from `off` on.
abbrev pub Bytes : Inode → Disk → ℕ → List ℕ → Type 0
Bytes ip d off [] = Unit
Bytes ip d off (b ∷ bs) = (b ≡ byte_at ip d off) × Bytes ip d (off + 1) bs

Bytes-append :
    (ip : Inode) (d : Disk) (off m : ℕ) (bs cs : List ℕ)
    → length bs ≡ m
    → Bytes ip d off bs
    → Bytes ip d (off + m) cs
    → Bytes ip d off (bs ++ cs)
Bytes-append ip d off m [] cs e h k = subst (λ o. Bytes ip d o cs) (omega (arith, e)) k
Bytes-append ip d off m (b ∷ bs) cs e h k = (
  h.0,
  Bytes-append ip d (off + 1) (m - 1) bs cs (omega (arith, e)) h.1
      (subst (λ o. Bytes ip d o cs) (omega (arith, e)) k),
)

Bytes-same :
    (ip ip' : Inode) (d d' : Disk) (off : ℕ) (bs : List ℕ)
    → ((o : ℕ) → o < max_bytes → byte_at ip' d' o ≡ byte_at ip d o)
    → off + length bs ≤ max_bytes
    → Bytes ip' d' off bs
    → Bytes ip d off bs
Bytes-same ip ip' d d' off [] same room h = tt
Bytes-same ip ip' d d' off (b ∷ bs) same room h = (
  h.0 ∙ same off (omega (arith, room)),
  Bytes-same ip ip' d d' (off + 1) bs same (omega (arith, room)) h.1,
)

-- A part of the block of position `off`.
Bytes-block :
    (ip : Inode) (d : Disk) (q i m a : ℕ)
    → slot ip d (place q) ≡ a
    → a ≢ 0
    → i + m ≤ bsize
    → Bytes ip d (q * bsize + i) (bytes_from (d.byte a) i m)
Bytes-block ip d q i zero a at nz room = tt
Bytes-block ip d q i (suc m) a at nz room =
    let in_block : (q * bsize + i) / bsize ≡ q = omega (arith, room) in
    let index : (q * bsize + i) % bsize ≡ i = omega (arith, room) in
    let some_block : (a == 0) ≡ false = ground (arith, nz) in
    (
      rw (in_block, index, at, some_block) refl,
      subst (λ o. Bytes ip d o (bytes_from (d.byte a) (i + 1) m)) (omega arith)
          (Bytes-block ip d q (i + 1) m a at nz (omega (arith, room))),
    )

-- How a read ends with `len` bytes copied from position `tot` of it on: with all `n` or a full
-- disk, or -1 where a copy failed.
abbrev pub Ends : (ℕ → Bool) → ℕ → ℕ → ℕ → Disk → Option ℕ → Type 0
Ends copied n tot len d (some end) =
    (end ≡ tot + len) × (end ≤ n) × ((end ≡ n) ⊎ ((y : ℕ) → y < d.size → d.used y ≡ true))
Ends copied n tot len d none = (tot + len < n) × (copied (tot + len) ≡ false)

-- The bytes are those of the file, which is as it was.
abbrev pub Reads : (ℕ → Bool) → ℕ → ℕ → ℕ → Inode → Disk → Copied × (Inode × Disk) → Type 0
Reads copied n off tot ip d ((res, bs), (ip', d')) =
    Owns ip' d'
    × (ip'.size ≡ ip.size)
    × ((o : ℕ) → o < max_bytes → byte_at ip' d' o ≡ byte_at ip d o)
    × Bytes ip d off bs
    × Ends copied n tot (length bs) d' res

Ends-more :
    (copied : ℕ → Bool) (n tot m len len' : ℕ) (d : Disk) (res : Option ℕ)
    → tot + m + len ≡ tot + len'
    → Ends copied n (tot + m) len d res
    → Ends copied n tot len' d res
Ends-more copied n tot m len len' d (some end) e (is, le, why) = (is ∙ e, le, why)
Ends-more copied n tot m len len' d none e (lt, bad) =
    (omega (arith, e, lt), subst (λ k. copied k ≡ false) e bad)

Ends-room :
    (copied : ℕ → Bool) (n tot len : ℕ) (d : Disk) (res : Option ℕ)
    → Ends copied n tot len d res
    → tot + len ≤ n
Ends-room copied n tot len d (some end) (is, le, why) = omega (arith, is, le)
Ends-room copied n tot len d none (lt, bad) = omega (arith, lt)

Reads-more :
    (copied : ℕ → Bool) (n off tot m : ℕ) (ip ip' : Inode) (d d' : Disk) (bs : List ℕ)
    (r : Copied × (Inode × Disk))
    → off + (n - tot) ≤ max_bytes
    → tot + m ≤ n
    → length bs ≡ m
    → ip'.size ≡ ip.size
    → ((o : ℕ) → o < max_bytes → byte_at ip' d' o ≡ byte_at ip d o)
    → Bytes ip d off bs
    → Reads copied n (off + m) (tot + m) ip' d' r
    → (r' : Copied × (Inode × Disk)) × (prepend bs r ≡ ok r') × Reads copied n off tot ip d r'
Reads-more copied n off tot m ip ip' d d' bs ((res, cs), (ip'', d'')) room le len size same h
      (own, size', same', h', ends) =
    let room' = Ends-room copied n (tot + m) (length cs) d'' res ends in
    let total = length-append bs cs in
    (
      ((res, bs ++ cs), (ip'', d'')),
      refl,
      (
        own,
        size' ∙ size,
        λ o lt. same' o lt ∙ same o lt,
        Bytes-append ip d off m bs cs len h
            (Bytes-same ip ip' d d' (off + m) cs same (omega (arith, room, le, room')) h'),
        Ends-more copied n tot m (length cs) (length (bs ++ cs)) d'' res (omega (arith, total, len))
            ends,
      ),
    )

abbrev Goes : (ℕ → Bool) → ℕ → ℕ → ℕ → Inode → Disk → Run (Copied × (Inode × Disk)) → Type 0
Goes copied n off tot ip d x =
    (r : Copied × (Inode × Disk)) × (x ≡ ok r) × Reads copied n off tot ip d r

body-Goes :
    (copied : ℕ → Bool) (n off tot : ℕ) (ip : Inode) (d : Disk)
    (rest : ℕ → ℕ → Inode × Disk → Run (Copied × (Inode × Disk))) (r : ℕ × (Inode × Disk))
    → After ip d (off / bsize) r
    → tot < n
    → off + (n - tot) ≤ max_bytes
    → ((m : ℕ) (ip' : Inode) (d' : Disk)
        → 0 < m
        → tot + m ≤ n
        → Owns ip' d'
        → Goes copied n (off + m) (tot + m) ip' d' (rest (off + m) (tot + m) (ip', d')))
    → Goes copied n off tot ip d (readi_body copied off n tot rest r)
body-Goes copied n off tot ip d rest (a, (ip', d')) (own, at, others, answer, kept) lt room go =
    let same : (o : ℕ) → o < max_bytes → byte_at ip' d' o ≡ byte_at ip d o =
      λ o lt'. kept.0 (place (o / bsize)) (o % bsize) (place-slots o lt') in
    let here : tot ≡ tot + 0 = omega arith in
    elim (Bool-cases (a == 0)) [
      | inl z ↦ rw z (
        ((some tot, []), (ip', d')),
        refl,
        (own, kept.1, same, tt, (here, omega (arith, lt), inr (unanswered a d' z answer))),
      )
      | inr nz ↦ elim (Bool-cases (copied tot)) [
        | inr bad ↦
            rw (nz, bad)
              (
                ((none, []), (ip', d')),
                refl,
                (
                  own,
                  kept.1,
                  same,
                  tt,
                  (omega (arith, lt), subst (λ k. copied k ≡ false) here bad),
                ),
              )
        | inl good ↦
            let m = chunk n tot off in
            let bs = bytes_from (d'.byte a) (off % bsize) m in
            let le : tot + m ≤ n = omega (arith, lt) in
            let split : off / bsize * bsize + off % bsize ≡ off = omega arith in
            let block =
              Bytes-block ip' d' (off / bsize) (off % bsize) m a at (nonzero a nz) (omega arith) in
            let mine =
              Bytes-same ip ip' d d' off bs same
                (omega (arith, room, lt, length-bytes_from (d'.byte a) (off % bsize) m))
                (subst (λ o. Bytes ip' d' o bs) split block) in
            let (r, e, w) = go m ip' d' (omega (arith, lt)) le own in
            rw (nz, good, e)
              (Reads-more copied n off tot m ip ip' d d' bs r room le
                (length-bytes_from (d'.byte a) (off % bsize) m) kept.1 same mine w)
      ]
    ]

readi_loop-Goes :
    (copied : ℕ → Bool) (fuel n off tot : ℕ) (ip : Inode) (d : Disk)
    → Owns ip d
    → tot ≤ n
    → off + (n - tot) ≤ max_bytes
    → n - tot < fuel
    → Goes copied n off tot ip d (readi_loop copied fuel n off tot (ip, d))
unfolding readi_loop
readi_loop-Goes copied zero n off tot ip d o le room enough = absurd (omega arith)
readi_loop-Goes copied (suc fuel) n off tot ip d o le room enough = elim (Bool-cases (ltb tot n)) [
  | inr done ↦
      let all : tot ≡ n = ground arith in
      rw done
        (((some tot, []), (ip, d)), refl, (o, refl, λ p lt. refl, tt, (omega arith, le, inl all)))
  | inl more ↦
      let lt : tot < n = ground arith in
      let (r, e, after) = bmap-After ip d (off / bsize) o (omega (arith, room, lt)) in
      rw (more, e)
        (body-Goes copied n off tot ip d (readi_loop copied fuel n) r after lt room
          (λ m ip' d' pos fits own.
            readi_loop-Goes copied fuel n (off + m) (tot + m) ip' d' own fits (omega (arith, room))
              (omega (arith, enough, pos))))
]

-- Of a file that owns its blocks and is no larger than the largest, `readi` from a position in it
-- returns: it copies the bytes of the file from there on, as many as asked for or as the file has,
-- and returns their number, or -1 if a copy fails, or stops early where a block that the file lacks
-- cannot be had; the file holds what it held.
pub readi-Reads :
    (copied : ℕ → Bool) (n off : ℕ) (ip : Inode) (d : Disk)
    → Owns ip d
    → off ≤ ip.size
    → ip.size ≤ max_bytes
    → off + n < 2 ^ 32
    → (r : Copied × (Inode × Disk)) × (readi copied off n (ip, d) ≡ ok r)
      × Reads copied (min n (ip.size - off)) off 0 ip d r
unfolding readi
readi-Reads copied n off ip d own le small word =
    let w : (off + n) % 2 ^ 32 ≡ off + n = omega (arith, word) in
    let a : ltb ip.size off ≡ false = ground (arith, le) in
    let b : ltb (off + n) off ≡ false = ground arith in
    let k : (if ltb ip.size (off + n) then ip.size - off else n) ≡ min n (ip.size - off) =
      ground (arith, le) in
    rw (w, a, b, k)
      (readi_loop-Goes copied (min n (ip.size - off) + 1) (min n (ip.size - off)) off 0 ip d own
        (omega arith) (omega (arith, le, small)) (omega arith))
