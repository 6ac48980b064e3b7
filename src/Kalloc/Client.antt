-- ===== src/Kalloc/Client.antt =====
-- kernel/kalloc.c: the kernel as a client that takes pages and gives back pages that it holds.
use proj.Common.{
  ℕ, zero, suc, ◌+◌, ◌≤◌, ◌≡◌, refl, List, [], ◌∷◌, All, none, some, get_elem?, count, false, Run,
  ok, ◌>>=◌, arith, ◌==◌, if◌then◌else◌, Option-cases, inl, inr, subst,
}
use mathlib.Core.Option.{some-injective}
use proj.Kalloc.{Machine, kfree, kalloc}
use proj.Kalloc.Lists.{IsPage, Holds}
use proj.Kalloc.Pages.{kfree-Holds, kalloc-nil, kalloc-cons}

pub data Request : Type 0 where
  alloc : Request
  -- gives back the `i`-th of the pages held, if there are so many
  free : ℕ → Request

abbrev pub remove_at : List ℕ → ℕ → List ℕ
remove_at [] i = []
remove_at (x ∷ xs) zero = xs
remove_at (x ∷ xs) (suc i) = x ∷ remove_at xs i

count-remove_at :
    (a x : ℕ) (xs : List ℕ) (i : ℕ)
    → get_elem? xs i ≡ some x
    → count a xs ≡ (if a == x then 1 else 0) + count a (remove_at xs i)
count-remove_at a x [] i e = cc
count-remove_at a x (y ∷ ys) zero e = ground arith
count-remove_at a x (y ∷ ys) (suc i) e = omega (arith, count-remove_at a x ys i e)

module _ {κ} (P : ℕ → Type κ) where
  All-remove_at : (xs : List ℕ) (i : ℕ) → All P xs → All P (remove_at xs i)
  All-remove_at [] i h = h
  All-remove_at (x ∷ xs) zero h = h.1
  All-remove_at (x ∷ xs) (suc i) h = (h.0, All-remove_at xs i h.1)

  All-get_elem? : (x : ℕ) (xs : List ℕ) (i : ℕ) → get_elem? xs i ≡ some x → All P xs → P x
  All-get_elem? x [] i e h = cc
  All-get_elem? x (y ∷ ys) zero e h = subst P (some-injective y x e) h.0
  All-get_elem? x (y ∷ ys) (suc i) e h = All-get_elem? x ys i e h.1

module _ (end_ id : ℕ) where
  pub serve : Request → Machine × List ℕ → Run (Machine × List ℕ)
  serve alloc (m, held) = do (r, m') ← kalloc id m; ok (m', if r == 0 then held else r ∷ held)
  serve (free i) (m, held) = elim (get_elem? held i) [
    | none ↦ ok (m, held)
    | some pa ↦ kfree end_ id pa m >>= λ m'. ok (m', remove_at held i)
  ]

  pub serve_all : List Request → Machine × List ℕ → Run (Machine × List ℕ)
  serve_all [] s = ok s
  serve_all (q ∷ qs) s = serve q s >>= serve_all qs

  -- The pages are shared out between the allocator's list and the client, `n a` times page `a`.
  pub record Shares (n : ℕ → ℕ) (s : Machine × List ℕ) : Type 0 where
    pub free_pages : List ℕ
    pub holds : Holds end_ s.0 free_pages
    pub pages : All (IsPage end_) s.1
    pub split : (a : ℕ) → count a s.1 + count a free_pages ≡ n a

  abbrev pub Served : (ℕ → ℕ) → Run (Machine × List ℕ) → Type 0
  Served n r = (s : Machine × List ℕ) × (r ≡ ok s) × Shares n s

  serve-Served :
      {n : ℕ → ℕ} (q : Request) (m : Machine) (held : List ℕ)
      → ((a : ℕ) → n a ≤ 1)
      → Shares n (m, held)
      → Served n (serve q (m, held))
  unfolding serve
  serve-Served {n} alloc m held u v = go v.free_pages v.holds v.split
    where
      go :
          (xs : List ℕ)
          → Holds end_ m xs
          → ((a : ℕ) → count a held + count a xs ≡ n a)
          → Served n (serve alloc (m, held))
      go [] h sp =
          let (m', run, h', _, _) = kalloc-nil id h in
          ((m', held), rw run, record { free_pages = []; holds = h'; pages = v.pages; split = sp })
      go (x ∷ xs) h sp =
          let (m', run, h', _, _) = kalloc-cons id h in
          let got : (x == 0) ≡ false = ground (arith, h.pages.0, h.kernel) in
          (
            (m', x ∷ held),
            rw (run, got),
            record {
              free_pages = xs;
              holds = h';
              pages = (h.pages.0, v.pages);
              split = λ a. omega (arith, sp a);
            },
          )
  serve-Served (free i) m held u v = elim (Option-cases (get_elem? held i)) [
    | inl e ↦ ((m, held), rw (e, serve), v)
    | inr (pa, e) ↦
        let once = count-remove_at pa pa held i e in
        let (m', run, h', _, _) =
          kfree-Holds id v.holds (All-get_elem? (IsPage end_) pa held i e v.pages)
            (ground (arith, once, v.split pa, u pa)) in
        (
          (m', remove_at held i),
          rw (e, serve, run),
          record {
            free_pages = pa ∷ v.free_pages;
            holds = h';
            pages = All-remove_at (IsPage end_) held i v.pages;
            split = λ a. omega (arith, v.split a, count-remove_at a pa held i e);
          },
        )
  ]

  -- Whatever requests a client makes of an allocator at rest, in whatever order, all of them
  -- return; no page is lost or given out twice: together, the client's pages and the free ones are
  -- always the pages that they were at the start.
  pub serve_all-Served :
      {n : ℕ → ℕ} (qs : List Request) (s : Machine × List ℕ)
      → ((a : ℕ) → n a ≤ 1)
      → Shares n s
      → Served n (serve_all qs s)
  unfolding serve_all
  serve_all-Served [] s u v = (s, refl, v)
  serve_all-Served (q ∷ qs) (m, held) u v =
      let (s', run, v') = serve-Served q m held u v in
      let (s'', run', v'') = serve_all-Served qs s' u v' in (s'', rw run run', v'')
