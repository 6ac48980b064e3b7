-- ===== src/Examples/Pages.antt =====
-- kernel/kalloc.c at concrete inputs: a kernel that ends at KERNBASE, with one page free or none.
use proj.Common.{
  ℕ, ◌≤◌, ◌≡◌, ◌↔◌, refl, true, false, List, [], ◌∷◌, none, ok, count, arith, ◌==◌, if◌then◌else◌,
}
use proj.Spinlock.{Cpu}
use proj.Memory.{kernbase}
use proj.Kalloc.{Machine, kinit}
use proj.Kalloc.Lists.{IsPage, Holds}
use proj.Kalloc.Pages.{SameCpu}
use proj.Kalloc.Boot.{kinit-Holds}
use proj.Kalloc.Client.{alloc, free, Shares, Served, serve_all, serve_all-Served}

abbrev cpu₀ : Cpu
cpu₀ = record { noff = 0; intena = false; intr = true }

abbrev no_pages : Machine
no_pages = record {
  cpu = cpu₀;
  lock = record { locked = false; cpu = none };
  freelist = 0;
  mem = λ _. 0;
}

abbrev one_page : Machine
one_page = record {
  cpu = cpu₀;
  lock = record { locked = false; cpu = none };
  freelist = kernbase;
  mem = λ _. 0;
}

no_pages-Holds : Holds kernbase no_pages []
no_pages-Holds = record {
  kernel = omega arith;
  unlocked = refl;
  masked = λ h. absurd (omega arith);
  chain = refl;
  pages = tt;
  distinct = λ a. omega arith;
}

kernbase-IsPage : IsPage kernbase kernbase
kernbase-IsPage = record { aligned = refl; above = omega arith; below = omega arith }

one_page-Holds : Holds kernbase one_page (kernbase ∷ [])
one_page-Holds = record {
  kernel = omega arith;
  unlocked = refl;
  masked = λ h. absurd (omega arith);
  chain = (refl, refl);
  pages = (kernbase-IsPage, tt);
  distinct = λ a. ground arith;
}

kinit_example :
    (m' : Machine) × (xs : List ℕ) × (kinit kernbase 0 no_pages ≡ ok m')
    × Holds kernbase m' xs
    × ((a : ℕ) → (count a xs ≡ 1) ↔ IsPage kernbase a)
    × SameCpu cpu₀ m'.cpu
kinit_example = kinit-Holds 0 no_pages (omega arith) (omega arith) refl (λ h. absurd (omega arith))

abbrev once : ℕ → ℕ
once a = if a == kernbase then 1 else 0

once-le : (a : ℕ) → once a ≤ 1
once-le a = ground arith

one_page-Shares : Shares kernbase 0 once (one_page, [])
one_page-Shares = record {
  free_pages = kernbase ∷ [];
  holds = one_page-Holds;
  pages = tt;
  split = λ a. ground arith;
}

serve_all_example :
    Served kernbase 0 once (serve_all kernbase 0 (alloc ∷ alloc ∷ free 0 ∷ []) (one_page, []))
serve_all_example =
    serve_all-Served kernbase 0 (alloc ∷ alloc ∷ free 0 ∷ []) (one_page, []) once-le one_page-Shares
