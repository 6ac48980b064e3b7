-- ===== src/Bio/Refine.antt =====
-- kernel/bio.c: the steps on the ring in memory are the steps on the list of buffers.
use proj.Common.{
  ℕ, ◌<◌, refl, subst, some, List, [], ◌∷◌, Run, ok, panic, blocked, ◌>>=◌, ◌==◌, Bool-cases, inl,
  inr,
}
use proj.Bio.{
  nbuf, Bcache, Bufs, found, lock_buf, fill, disk_write, drop, hold, set_lock, is_block, unused,
  bget_find, bget_lock, bread_fill, bwrite, brelse, bpin, bunpin, with_bufs,
}
use proj.Bio.Order.{Full, find, find_last, scan-next, scan-prev}
use proj.Bio.Lru.{
  Lru, Request, get, lock, load, write, release, pin, unpin, Names, serve, lru_serve, lru_find,
  lru_lock, lru_write, lru_release, serve_all, lru_serve_all, Refines, Agree, view, no_result,
  Full-bufs, Full-move, bufs-links,
}
use proj.Sleeplock.{releasesleep, holdingsleep}

Agree-bufs :
    {s : Bcache} {xs : List ℕ} (x : Run Bufs)
    → Full s xs
    → Agree
        (x >>= (λ m. ok (record s { bufs = m })) >>= no_result)
        (x >>= (λ m. ok (record (view xs s) { bufs = m })) >>= no_result)
Agree-bufs (ok m) f = (refl, record { full = Full-bufs m f; same = refl })
Agree-bufs panic f = tt
Agree-bufs blocked f = tt

Agree-found :
    {s : Bcache} {xs : List ℕ} (x : Run (ℕ × Bufs))
    → Full s xs
    → Agree
        (x >>= (λ y. ok (with_bufs s y)) >>= λ (b, s'). ok (some b, s'))
        (x >>= (λ (b, m). ok (b, record (view xs s) { bufs = m })) >>= λ (b, a'). ok (some b, a'))
Agree-found (ok (b, m)) f = (refl, record { full = Full-bufs m f; same = refl })
Agree-found panic f = tt
Agree-found blocked f = tt

serve-get :
    {s : Bcache} {xs : List ℕ} (dev blockno : ℕ)
    → Full s xs
    → Agree (serve (get dev blockno) s) (lru_serve (get dev blockno) (view xs s))
unfolding serve lru_serve bget_find lru_find
serve-get {s} {xs} dev blockno f =
    rw (scan-next (is_block dev blockno s.bufs) f, scan-prev (unused s.bufs) f)
      (Agree-found
        (found dev blockno (find (is_block dev blockno s.bufs) xs) (find_last (unused s.bufs) xs)
          s.bufs)
        f)

serve-lock :
    {s : Bcache} {xs : List ℕ} (pid b : ℕ)
    → Full s xs
    → Agree (serve (lock pid b) s) (lru_serve (lock pid b) (view xs s))
unfolding serve lru_serve bget_lock lru_lock
serve-lock {s} pid b f = Agree-bufs (lock_buf pid b s.bufs) f

serve-write :
    {s : Bcache} {xs : List ℕ} (pid b : ℕ)
    → Full s xs
    → Agree (serve (write pid b) s) (lru_serve (write pid b) (view xs s))
unfolding serve lru_serve bwrite lru_write
serve-write {s} pid b f = elim (Bool-cases (holdingsleep pid (s.bufs.lock b))) [
  | inl h ↦ rw h (refl, record { full = Full-bufs (disk_write b s.bufs) f; same = refl })
  | inr h ↦ rw h tt
]

serve-release :
    {s : Bcache} {xs : List ℕ} (pid b : ℕ)
    → Full s xs
    → b < nbuf
    → Agree (serve (release pid b) s) (lru_serve (release pid b) (view xs s))
unfolding serve lru_serve brelse lru_release
serve-release {s} {xs} pid b f lt =
    let m = drop b (set_lock b (releasesleep (s.bufs.lock b)) s.bufs) in
    elim (Bool-cases (holdingsleep pid (s.bufs.lock b))) [
      | inr h ↦ rw h tt
      | inl h ↦ elim (Bool-cases (m.refcnt b == 0)) [
        | inl z ↦
            rw (h, z)
              (
                refl,
                record {
                  full = Full-move b (Full-bufs m f) lt;
                  same = bufs-links b (record s { bufs = m });
                },
              )
        | inr z ↦ rw (h, z) (refl, record { full = Full-bufs m f; same = refl })
      ]
    ]

serve-view :
    {s : Bcache} {xs : List ℕ} (q : Request)
    → Full s xs
    → Names q
    → Agree (serve q s) (lru_serve q (view xs s))
unfolding serve lru_serve bread_fill bpin bunpin
serve-view (get dev blockno) f n = serve-get dev blockno f
serve-view (lock pid b) f n = serve-lock pid b f
serve-view (write pid b) f n = serve-write pid b f
serve-view (release pid b) f n = serve-release pid b f n
serve-view {s} (load b) f n = (refl, record { full = Full-bufs (fill b s.bufs) f; same = refl })
serve-view {s} (pin b) f n = (refl, record { full = Full-bufs (hold b s.bufs) f; same = refl })
serve-view {s} (unpin b) f n = (refl, record { full = Full-bufs (drop b s.bufs) f; same = refl })

pub serve-Refines :
    {s : Bcache} {a : Lru} (q : Request) → Refines s a → Names q → Agree (serve q s) (lru_serve q a)
serve-Refines {s} {a} q r n =
    subst (λ m. Agree (serve q s) (lru_serve q (record { order = a.order; bufs = m }))) r.same
      (serve-view q r.full n)

abbrev pub AllNames : List Request → Type 0
AllNames [] = Unit
AllNames (q ∷ qs) = Names q × AllNames qs

-- What agrees goes on in agreement.
Agree-bind :
    {R R' : Type 0} (x : Run (R × Bcache)) (y : Run (R × Lru)) (j : R × Bcache → Run (R' × Bcache))
    (k : R × Lru → Run (R' × Lru))
    → Agree x y
    → ((r : R) (s : Bcache) (a : Lru) → Refines s a → Agree (j (r, s)) (k (r, a)))
    → Agree (x >>= j) (y >>= k)
Agree-bind (ok (r, s)) (ok (r', a)) j k h f =
    subst (λ t. Agree (j (r, s)) (k (t, a))) h.0 (f r s a h.1)
Agree-bind panic panic j k h f = tt
Agree-bind blocked blocked j k h f = tt
Agree-bind (ok _) panic j k h f = absurd h
Agree-bind (ok _) blocked j k h f = absurd h
Agree-bind panic (ok _) j k h f = absurd h
Agree-bind panic blocked j k h f = absurd h
Agree-bind blocked (ok _) j k h f = absurd h
Agree-bind blocked panic j k h f = absurd h

-- Whatever steps the processes take, in whatever order, from a cache whose ring is the list of the
-- abstract cache, where they release only buffers of the cache: the code and the abstract cache
-- give the same results in order, and the ring is the list again, or both panic, or both wait.
pub serve_all-Refines :
    {s : Bcache} {a : Lru} (qs : List Request)
    → Refines s a
    → AllNames qs
    → Agree (serve_all qs s) (lru_serve_all qs a)
unfolding serve_all lru_serve_all
serve_all-Refines [] r n = (refl, r)
serve_all-Refines {s} {a} (q ∷ qs) r n =
    Agree-bind (serve q s) (lru_serve q a) _ _ (serve-Refines q r n.0) (λ o s' a' r'.
      Agree-bind (serve_all qs s') (lru_serve_all qs a') _ _ (serve_all-Refines qs r' n.1)
        (λ os s₂ a₂ r₂. (refl, r₂)))
