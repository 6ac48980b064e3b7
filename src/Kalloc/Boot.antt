-- ===== src/Kalloc/Boot.antt =====
-- kernel/kalloc.c: `freerange` and `kinit`.
use proj.Common.{
  ℕ, zero, suc, ◌+◌, ◌-◌, ◌*◌, ◌/◌, ◌%◌, ◌≤◌, ◌<◌, ◌≡◌, ◌↔◌, refl, ◌∙◌, List, [], ◌∷◌, count, false,
  true, Run, ok, arith, ltb, leb, ◌==◌, if◌then◌else◌, ◌&&◌,
}
use proj.Spinlock.{initlock}
use proj.Spinlock.Nesting.{IsMasked}
use proj.Memory.{pgsize, phystop, pground_up}
use proj.Kalloc.{Machine, freerange_loop, kinit}
use proj.Kalloc.Lists.{IsPage, Holds}
use proj.Kalloc.Pages.{SameCpu, kfree-Holds}

-- `xs` with the `n` pages from `p` on in front, each before those that were freed before it.
abbrev pages_from : ℕ → ℕ → List ℕ → List ℕ
pages_from p zero xs = xs
pages_from p (suc n) xs = pages_from (p + pgsize) n (p ∷ xs)

count-pages_from :
    (a p n : ℕ) (xs : List ℕ)
    → p % pgsize ≡ 0
    → count a (pages_from p n xs)
      ≡ (if (a % pgsize == 0) && (leb p a && ltb a (p + n * pgsize)) then 1 else 0) + count a xs
count-pages_from a p zero xs h = ground arith
count-pages_from a p (suc n) xs h = ground (arith, count-pages_from a (p + pgsize) n (p ∷ xs))

-- What the loop does from `m`.
abbrev Filled : ℕ → List ℕ → Machine → Run Machine → Type 0
Filled end_ xs m r = (m' : Machine) × (r ≡ ok m') × Holds end_ m' xs × SameCpu m.cpu m'.cpu

module _ {end_ : ℕ} (id pa_end : ℕ) where
  freerange_loop-Filled :
      (fuel n p : ℕ) {m : Machine} {xs : List ℕ}
      → Holds end_ m xs
      → n < fuel
      → p % pgsize ≡ 0
      → end_ ≤ p
      → pa_end ≤ phystop
      → p + n * pgsize ≤ pa_end
      → pa_end < p + n * pgsize + pgsize
      → ((y : ℕ) → p ≤ y → count y xs ≡ 0)
      → Filled end_ (pages_from p n xs) m (freerange_loop end_ id fuel p pa_end m)
  unfolding freerange_loop
  freerange_loop-Filled zero n p h f al lo hi fits stop new = absurd (omega arith)
  freerange_loop-Filled (suc fuel) zero p {m} h f al lo hi fits stop new =
      let done : leb (p + pgsize) pa_end ≡ false = ground arith in (m, rw done, h, (refl, refl))
  freerange_loop-Filled (suc fuel) (suc n) p {m} {xs} h f al lo hi fits stop new =
      let more : leb (p + pgsize) pa_end ≡ true = ground arith in
      let page : IsPage end_ p = record { aligned = al; above = lo; below = omega arith } in
      let (m', run, h', _, cpu) = kfree-Holds id h page (new p (omega arith)) in
      let (m'', run', h'', cpu') =
        freerange_loop-Filled fuel n (p + pgsize) h' (omega arith) (omega arith) (omega arith) hi
          (omega arith) (omega arith) (λ y b. ground (arith, new y)) in
      (m'', rw (more, run) run', h'', (cpu'.0 ∙ cpu.0, cpu'.1 ∙ cpu.1))

-- `kinit`, run once at boot with the list empty, returns with the lock free and every page of RAM
-- above the kernel on the free list: exactly the addresses that `kfree` accepts, each of them once.
pub kinit-Holds :
    {end_ : ℕ} (id : ℕ) (m : Machine)
    → 0 < end_
    → end_ ≤ phystop
    → m.freelist ≡ 0
    → IsMasked m.cpu
    → (m' : Machine) × (xs : List ℕ) × (kinit end_ id m ≡ ok m')
      × Holds end_ m' xs
      × ((a : ℕ) → (count a xs ≡ 1) ↔ IsPage end_ a)
      × SameCpu m.cpu m'.cpu
unfolding kinit
kinit-Holds {end_} id m pos le e mk = (run.0, pages_from p n [], run.1, run.2, exact, run.3)
  where
    p : ℕ
    p = pground_up end_

    n : ℕ
    n = (phystop - p) / pgsize

    m₀ : Machine
    m₀ = record m { lock = initlock }

    start : Holds end_ m₀ []
    start = record {
      kernel = pos;
      unlocked = refl;
      masked = mk;
      chain = e;
      pages = tt;
      distinct = λ a. omega arith;
    }

    run :
        Filled end_
          (pages_from p n [])
          m₀
          (freerange_loop end_ id (phystop / pgsize + 1) p phystop m₀)
    run =
        freerange_loop-Filled id phystop (phystop / pgsize + 1) n p start (omega arith)
          (omega arith) (omega arith) (omega arith) (omega arith) (omega arith) (λ y b. refl)

    exact : (a : ℕ) → (count a (pages_from p n []) ≡ 1) ↔ IsPage end_ a
    exact a = (
      λ c. ground (arith, count-pages_from a p n [] (omega arith)),
      λ pg. ground (arith, count-pages_from a p n [] (omega arith)),
    )
