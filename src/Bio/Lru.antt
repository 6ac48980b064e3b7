-- ===== src/Bio/Lru.antt =====
-- kernel/bio.c: the cache is a list of buffers in the order of their last use.
use proj.Common.{
  ℕ, ◌+◌, ◌≤◌, ◌<◌, ◌≡◌, refl, ap, subst, not, Option, none, some, List, [], ◌∷◌, ◌++◌, count,
  count-append, length, length-append, Run, ok, panic, blocked, ◌>>=◌, ◌>>◌, panic_if, arith, ◌==◌,
  if◌then◌else◌, Bool-cases, inl, inr,
}
use proj.Bio.{
  nbuf, Bcache, Bufs, push_front, unlink, found, lock_buf, fill, disk_write, drop, hold, set_lock,
  is_block, unused, bget_find, bget_lock, bread_fill, bwrite, brelse, bpin, bunpin,
}
use proj.Bio.Ring.{Ring, push_front-Ring, unlink-Ring}
use proj.Bio.Order.{Full, find, find_last}
use proj.Sleeplock.{releasesleep, holdingsleep}

-- The abstract cache: the buffers, the most recently used first, and no links.
pub record Lru : Type 0 where
  pub order : List ℕ
  pub bufs : Bufs

abbrev pub remove : ℕ → List ℕ → List ℕ
remove b [] = []
remove b (x ∷ xs) = if x == b then xs else x ∷ remove b xs

-- `bget` under its lock: the buffer that holds the block, or the least recently used one that is
-- free.
unfoldable pub lru_find : ℕ → ℕ → Lru → Run (ℕ × Lru)
lru_find dev blockno a =
    found dev blockno (find (is_block dev blockno a.bufs) a.order)
      (find_last (unused a.bufs) a.order) a.bufs
    >>= λ (b, m). ok (b, record a { bufs = m })

unfoldable pub lru_lock : ℕ → ℕ → Lru → Run Lru
lru_lock pid b a = lock_buf pid b a.bufs >>= λ m. ok (record a { bufs = m })

unfoldable pub lru_write : ℕ → ℕ → Lru → Run Lru
lru_write pid b a = do
  panic_if (not (holdingsleep pid (a.bufs.lock b)))
  ok (record a { bufs = disk_write b a.bufs })

-- `brelse`: a buffer that nobody refers to any more is the most recently used one.
unfoldable pub lru_release : ℕ → ℕ → Lru → Run Lru
lru_release pid b a = do
  panic_if (not (holdingsleep pid (a.bufs.lock b)))
  let m = drop b (set_lock b (releasesleep (a.bufs.lock b)) a.bufs)
  ok (record { order = if m.refcnt b == 0 then b ∷ remove b a.order else a.order; bufs = m })

-- The steps of the processes: each is atomic, and they come in any order.
pub data Request : Type 0 where
  get : ℕ → ℕ → Request
  lock : ℕ → ℕ → Request
  load : ℕ → Request
  write : ℕ → ℕ → Request
  release : ℕ → ℕ → Request
  pin : ℕ → Request
  unpin : ℕ → Request

-- The buffers that are released are buffers of the cache.
abbrev pub Names : Request → Type 0
Names (release pid b) = b < nbuf
Names _ = Unit

abbrev pub no_result {ℓ} : {A : Type ℓ} → A → Run (Option ℕ × A)
no_result s = ok (none, s)

unfoldable pub serve : Request → Bcache → Run (Option ℕ × Bcache)
unfolding bget_find bget_lock bread_fill bwrite brelse bpin bunpin
serve (get dev blockno) s = bget_find dev blockno s >>= λ (b, s'). ok (some b, s')
serve (lock pid b) s = bget_lock pid b s >>= no_result
serve (load b) s = no_result (bread_fill b s)
serve (write pid b) s = bwrite pid b s >>= no_result
serve (release pid b) s = brelse pid b s >>= no_result
serve (pin b) s = no_result (bpin b s)
serve (unpin b) s = no_result (bunpin b s)

unfoldable pub lru_serve : Request → Lru → Run (Option ℕ × Lru)
unfolding lru_find lru_lock lru_write lru_release
lru_serve (get dev blockno) a = lru_find dev blockno a >>= λ (b, a'). ok (some b, a')
lru_serve (lock pid b) a = lru_lock pid b a >>= no_result
lru_serve (load b) a = no_result (record a { bufs = fill b a.bufs })
lru_serve (write pid b) a = lru_write pid b a >>= no_result
lru_serve (release pid b) a = lru_release pid b a >>= no_result
lru_serve (pin b) a = no_result (record a { bufs = hold b a.bufs })
lru_serve (unpin b) a = no_result (record a { bufs = drop b a.bufs })

-- A run of requests, with the results in order.
unfoldable pub serve_all : List Request → Bcache → Run (List (Option ℕ) × Bcache)
serve_all [] s = ok ([], s)
serve_all (q ∷ qs) s = serve q s >>= λ (r, s₁). serve_all qs s₁ >>= λ (rs, s₂). ok (r ∷ rs, s₂)

unfoldable pub lru_serve_all : List Request → Lru → Run (List (Option ℕ) × Lru)
lru_serve_all [] a = ok ([], a)
lru_serve_all (q ∷ qs) a =
    lru_serve q a >>= λ (r, a₁). lru_serve_all qs a₁ >>= λ (rs, a₂). ok (r ∷ rs, a₂)

-- The ring in memory is the list of the abstract cache, and the buffers are the same.
pub record Refines (s : Bcache) (a : Lru) : Type 0 where
  pub full : Full s a.order
  pub same : s.bufs ≡ a.bufs

-- Both return the same results and stand in the relation, or both panic, or both wait.
abbrev pub Agree : {R : Type 0} → Run (R × Bcache) → Run (R × Lru) → Type 0
Agree (ok (r, s)) (ok (r', a)) = (r ≡ r') × Refines s a
Agree panic panic = Unit
Agree blocked blocked = Unit
Agree _ _ = ⊥

abbrev pub view : List ℕ → Bcache → Lru
view xs s = record { order = xs; bufs = s.bufs }

pub Full-bufs : {s : Bcache} {xs : List ℕ} (m : Bufs) → Full s xs → Full (record s { bufs = m }) xs
Full-bufs m f = record {
  ring = record { links = f.ring.links; distinct = f.ring.distinct; inside = f.ring.inside };
  size = f.size;
  all_in = f.all_in;
}

-- A list at one of its elements.
split_at :
    (b : ℕ) (xs : List ℕ)
    → 0 < count b xs
    → (ys zs : List ℕ) × (xs ≡ ys ++ (b ∷ zs)) × (remove b xs ≡ ys ++ zs)
split_at b [] h = absurd (omega arith)
split_at b (x ∷ xs) h = elim (Bool-cases (x == b)) [
  | inl here ↦ let e : x ≡ b = ground arith in ([], xs, ap (λ y. y ∷ xs) e, rw here refl)
  | inr later ↦
      let (ys, zs, e, e') = split_at b xs (ground arith) in
      (x ∷ ys, zs, ap (λ l. x ∷ l) e, rw later (ap (λ l. x ∷ l) e'))
]

pub bufs-links : (b : ℕ) (s : Bcache) → (push_front b (unlink b s)).bufs ≡ s.bufs
unfolding push_front unlink
bufs-links b s = refl

pub Full-move :
    (b : ℕ) {s : Bcache} {xs : List ℕ}
    → Full s xs
    → b < nbuf
    → Full (push_front b (unlink b s)) (b ∷ remove b xs)
Full-move b {s} {xs} f lt =
    let (ys, zs, e, e') = split_at b xs (f.all_in b lt) in
    let r = unlink-Ring b ys zs (subst (λ l. Ring s l) e f.ring) in
    let parts : (c : ℕ) → count c xs ≡ count c (ys ++ zs) + count c (b ∷ []) =
      λ c. ground (arith, ap (count c) e, count-append c ys (b ∷ zs), count-append c ys zs) in
    let once : (c : ℕ) → count c (ys ++ zs) + count c (b ∷ []) ≤ 1 =
      λ c. omega (arith, parts c, f.ring.distinct c) in
    rw e' (record {
      ring = push_front-Ring b (ys ++ zs) r lt (ground (arith, once b));
      size = ground (arith, f.size, ap length e, length-append ys (b ∷ zs), length-append ys zs);
      all_in = λ c h. ground (arith, f.all_in c h, parts c);
    })
