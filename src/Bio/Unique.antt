-- ===== src/Bio/Unique.antt =====
-- kernel/bio.c: no block has two buffers.
use proj.Common.{
  panic, ◌+◌, ◌%◌, ◌^◌, ◌⊎◌, ℕ, ◌<◌, ◌≡◌, ◌≢◌, refl, sym, subst, ◌∙◌, Bool, true, false, none, some,
  List, [], ◌∷◌, count, Run, ok, arith, ◌==◌, Bool-cases, Option-cases, inl, inr,
}
use mathlib.Core.Option.{some-injective}
use proj.Bio.{nbuf, Bcache, Bufs, is_block, unused, bget_find, recycle, hold}
use proj.Bio.Lru.{Full-bufs}
use proj.Bio.Order.{Full, find, find_last, scan-next, scan-prev}

-- Two buffers do not hold the same block of a device. Buffers that hold none have device 0.
abbrev pub Unique : Bufs → Type 0
Unique m =
    (b c : ℕ)
    → b < nbuf
    → c < nbuf
    → m.dev b ≢ 0
    → m.dev b ≡ m.dev c
    → m.blockno b ≡ m.blockno c
    → b ≡ c

find-none :
    (test : ℕ → Bool) (xs : List ℕ) (b : ℕ) → find test xs ≡ none → 0 < count b xs → test b ≡ false
find-none test [] b e h = absurd (omega arith)
find-none test (x ∷ xs) b e h = elim (Bool-cases (test x)) [
  | inl t ↦ cc (e, t)
  | inr t ↦ elim (Bool-cases (x == b)) [
    | inl here ↦ ground arith
    | inr there ↦ find-none test xs b (rw (sym e, t) refl) (ground arith)
  ]
]

Unique-recycle :
    (dev blockno b : ℕ) (m : Bufs)
    → Unique m
    → ((c : ℕ) → c < nbuf → is_block dev blockno m c ≡ false)
    → Unique (recycle dev blockno b m)
Unique-recycle dev blockno b m u new x y hx hy d e e' =
    ground (arith, u x y hx hy, new x hx, new y hy)

find-some :
    (test : ℕ → Bool) (xs : List ℕ) {b : ℕ}
    → find test xs ≡ some b
    → (test b ≡ true) × (0 < count b xs)
find-some test [] e = cc
find-some test (x ∷ xs) {b} e = elim (Bool-cases (test x)) [
  | inl t ↦
      let same : some x ≡ some b = rw (sym e, t) refl in
      let e' = some-injective x b same in (subst (λ y. test y ≡ true) e' t, ground arith)
  | inr t ↦ let (h, h') = find-some test xs {b = b} (rw (sym e, t) refl) in (h, ground arith)
]

find_last-some :
    (test : ℕ → Bool) (xs : List ℕ) {b : ℕ}
    → find_last test xs ≡ some b
    → (test b ≡ true) × (0 < count b xs)
find_last-some test [] e = cc
find_last-some test (x ∷ xs) {b} e = elim (Option-cases (find_last test xs)) [
  | inr (y, h) ↦
      let same : some y ≡ some b = rw (sym e, h) refl in
      let (t, mem) = find_last-some test xs {b = b} (h ∙ same) in (t, ground arith)
  | inl h ↦ elim (Bool-cases (test x)) [
    | inl t ↦
        let same : some x ≡ some b = rw (sym e, h, t) refl in
        let e' = some-injective x b same in (subst (λ y. test y ≡ true) e' t, ground arith)
    | inr t ↦ let same : none ≡ some b = rw (sym e, h, t) refl in cc
  ]
]

find_last-none :
    (test : ℕ → Bool) (xs : List ℕ) (b : ℕ)
    → find_last test xs ≡ none
    → 0 < count b xs
    → test b ≡ false
find_last-none test [] b e h = absurd (omega arith)
find_last-none test (x ∷ xs) b e h = elim (Option-cases (find_last test xs)) [
  | inr (y, h') ↦ let wrong : some y ≡ none = rw (sym e, h') refl in cc
  | inl h' ↦ elim (Bool-cases (test x)) [
    | inl t ↦ let wrong : some x ≡ none = rw (sym e, h', t) refl in cc
    | inr t ↦ elim (Bool-cases (x == b)) [
      | inl here ↦ ground arith
      | inr there ↦ find_last-none test xs b h' (ground arith)
    ]
  ]
]

-- The buffer with number `b` is one for the block, and no block has two.
abbrev pub Got : ℕ → ℕ → List ℕ → ℕ → Bcache → Type 0
Got dev blockno xs b s =
    Full s xs × Unique s.bufs × (b < nbuf) × (s.bufs.dev b ≡ dev) × (s.bufs.blockno b ≡ blockno)

-- Either `b` had the block and has one reference more, or no buffer had it, nobody referred to `b`,
-- and it has the one reference; the other buffers have the references, devices and blocks they had.
abbrev pub Taken : ℕ → ℕ → ℕ → Bufs → Bufs → Type 0
Taken dev blockno b m m' =
    ((m.dev b ≡ dev) × (m.blockno b ≡ blockno) × (m'.refcnt b ≡ (m.refcnt b + 1) % 2 ^ 32)
      ⊎ ((c : ℕ) → c < nbuf → is_block dev blockno m c ≡ false)
        × (m.refcnt b ≡ 0)
        × (m'.refcnt b ≡ 1))
    × ((c : ℕ)
        → c ≢ b
        → (m'.refcnt c ≡ m.refcnt c) × (m'.dev c ≡ m.dev c) × (m'.blockno c ≡ m.blockno c))

Got-hold :
    (dev blockno b : ℕ) {s : Bcache} {xs : List ℕ}
    → Full s xs
    → Unique s.bufs
    → find (is_block dev blockno s.bufs) xs ≡ some b
    → Got dev blockno xs b (record s { bufs = hold b s.bufs })
Got-hold dev blockno b {s} {xs} f u h =
    let (t, mem) = find-some (is_block dev blockno s.bufs) xs h in
    (Full-bufs (hold b s.bufs) f, u, f.ring.inside b mem, ground arith, ground arith)

Got-recycle :
    (dev blockno b : ℕ) {s : Bcache} {xs : List ℕ}
    → Full s xs
    → Unique s.bufs
    → find (is_block dev blockno s.bufs) xs ≡ none
    → find_last (unused s.bufs) xs ≡ some b
    → Got dev blockno xs b (record s { bufs = recycle dev blockno b s.bufs })
Got-recycle dev blockno b {s} {xs} f u h h' = (
  Full-bufs (recycle dev blockno b s.bufs) f,
  Unique-recycle dev blockno b s.bufs u
      (λ c lt. find-none (is_block dev blockno s.bufs) xs c h (f.all_in c lt)),
  f.ring.inside b (find_last-some (unused s.bufs) xs h').1,
  ground arith,
  ground arith,
)

Taken-hold :
    (dev blockno b : ℕ) (m : Bufs) (xs : List ℕ)
    → find (is_block dev blockno m) xs ≡ some b
    → Taken dev blockno b m (hold b m)
Taken-hold dev blockno b m xs h =
    let (t, _) = find-some (is_block dev blockno m) xs h in
    (inl (ground arith, ground arith, ground arith), λ c ne. (ground arith, refl, refl))

Taken-recycle :
    (dev blockno b : ℕ) (m : Bufs) (xs : List ℕ)
    → ((c : ℕ) → c < nbuf → is_block dev blockno m c ≡ false)
    → find_last (unused m) xs ≡ some b
    → Taken dev blockno b m (recycle dev blockno b m)
Taken-recycle dev blockno b m xs new h =
    let (t, _) = find_last-some (unused m) xs h in
    (
      inr (new, ground arith, ground arith),
      λ c ne. let off : (c == b) ≡ false = ground arith in rw off (refl, refl, refl),
    )

-- A buffer is returned, or no buffer has the block, all are referred to, and it is a panic.
abbrev pub Gets : ℕ → ℕ → List ℕ → Bufs → Run (ℕ × Bcache) → Type 0
Gets dev blockno xs m r =
    ((b : ℕ) × (s : Bcache) × (r ≡ ok (b, s))
      × Got dev blockno xs b s
      × Taken dev blockno b m s.bufs)
    ⊎ (r ≡ panic) × ((c : ℕ) → c < nbuf → (is_block dev blockno m c ≡ false) × (m.refcnt c ≢ 0))

bget_find-Gets :
    (dev blockno : ℕ) {s : Bcache} {xs : List ℕ}
    → Full s xs
    → Unique s.bufs
    → Gets dev blockno xs s.bufs (bget_find dev blockno s)
unfolding bget_find
bget_find-Gets dev blockno {s} {xs} f u =
    rw (scan-next (is_block dev blockno s.bufs) f, scan-prev (unused s.bufs) f)
      (elim (Option-cases (find (is_block dev blockno s.bufs) xs)) [
        | inr (c, h) ↦ rw h (
            inl (
              c,
              record s { bufs = hold c s.bufs },
              refl,
              Got-hold dev blockno c f u h,
              Taken-hold dev blockno c s.bufs xs h,
            ))
        | inl h ↦ elim (Option-cases (find_last (unused s.bufs) xs)) [
          | inr (c, h') ↦
              rw (h, h')
                (inl (
                  c,
                  record s { bufs = recycle dev blockno c s.bufs },
                  refl,
                  Got-recycle dev blockno c f u h h',
                  Taken-recycle dev blockno c s.bufs xs
                      (λ x lt. find-none (is_block dev blockno s.bufs) xs x h (f.all_in x lt)) h',
                ))
          | inl h' ↦
              rw (h, h')
                (inr (
                  refl,
                  λ c lt. (
                    find-none (is_block dev blockno s.bufs) xs c h (f.all_in c lt),
                    let used = find_last-none (unused s.bufs) xs c h' (f.all_in c lt) in
                        λ z. ground arith,
                  ),
                ))
        ]
      ])

-- From a full ring in which no block has two buffers, either `bget` finds a buffer of the cache: it
-- has the number asked for, it is the block's with one reference more (mod 2 ^ 32), or, where no
-- buffer had the block, one that nobody referred to with one reference, the other buffers keep their
-- references and blocks, still no block has two buffers, and the ring is as it was. Or no buffer has
-- the block and all are referred to, and `bget` panics.
pub bget_find-Unique :
    (dev blockno : ℕ) {s : Bcache} {xs : List ℕ}
    → Full s xs
    → Unique s.bufs
    → Gets dev blockno xs s.bufs (bget_find dev blockno s)
bget_find-Unique dev blockno f u = bget_find-Gets dev blockno f u
