-- ===== src/Usercopy/Pages.antt =====
-- kernel/vm.c: where the bytes of a user's memory are, and the part of a copy that lies in one
-- page.
use proj.Common.{ℕ, ◌+◌, ltb, true, false, ◌==◌, ◌-◌, ◌/◌, ◌%◌, ◌^◌, ◌≤◌, ◌<◌, ◌≡◌, ◌≢◌, arith, ok}
use proj.Memory.{pgsize, pground_down}
use proj.Usercopy.{Table, part, next_page}

-- The physical address of a user's byte, by the physical addresses of the pages.
abbrev pub place : (ℕ → ℕ) → ℕ → ℕ
place pa v = pa (v / pgsize) + v % pgsize

-- The table maps the pages of the `len` bytes from `va`.
abbrev pub Mapped : Table → (ℕ → ℕ) → ℕ → ℕ → Type 0
Mapped table pa va len =
    (v : ℕ)
    → va ≤ v
    → v < va + len
    → (table (pground_down v) ≡ ok (pa (v / pgsize))) × (pa (v / pgsize) ≢ 0)

-- No address of a user comes near the end of a word.
abbrev pub top : ℕ
top = 2 ^ 63

pub part-pos : (va len : ℕ) → 0 < len → 0 < part va len
part-pos va len h = ground arith

pub part-le : (va len : ℕ) → part va len ≤ len
part-le va len = ground arith

part-page : (va len : ℕ) → va % pgsize + part va len ≤ pgsize
part-page va len = ground arith

pub next_page-part : (va len : ℕ) → part va len < len → va < top → next_page va ≡ va + part va len
next_page-part va len h t = ground arith

pub place-part :
    (pa : ℕ → ℕ) (va len k : ℕ)
    → k < part va len
    → place pa (va + k) ≡ pa (va / pgsize) + (va - pground_down va) + k
place-part pa va len k h =
    let page : (va + k) / pgsize ≡ va / pgsize = omega (arith, part-page va len) in
    let offset : (va + k) % pgsize ≡ va - pground_down va + k = omega (arith, part-page va len) in
    rw (page, offset) (omega arith)

-- What is left after a turn is mapped too.
pub Mapped-next :
    (table : Table) (pa : ℕ → ℕ) (va len size : ℕ)
    → size ≤ len
    → va < top
    → Mapped table pa va size
    → Mapped table pa (next_page va) (size - part va len)
Mapped-next table pa va len size f t m v low high =
    let same = next_page-part va len (omega arith) t in
    m v (omega (arith, same)) (omega (arith, same, part-le va len))

-- A turn of a loop over `size` bytes that are left: it is made, and it finds the page.
pub turn_found :
    (table : Table) (pa : ℕ → ℕ) (va size mapped : ℕ)
    → 0 < size
    → 0 < mapped
    → Mapped table pa va mapped
    → (ltb 0 size ≡ true)
      × (table (pground_down va) ≡ ok (pa (va / pgsize)))
      × ((pa (va / pgsize) == 0) ≡ false)
turn_found table pa va size mapped p q m =
    let here = m va (omega arith) (omega arith) in (ground arith, here.0, ground (arith, here.1))

pub top-next :
    (va size : ℕ)
    → (0 < size → va + size < top)
    → 0 < size - part va size
    → next_page va + (size - part va size) < top
top-next va size t h =
    omega (
      arith,
      t (omega arith),
      next_page-part va size (omega arith) (omega (arith, t (omega arith))),
    )
