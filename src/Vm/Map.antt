-- ===== src/Vm/Map.antt =====
-- kernel/vm.c: `walkaddr` finds what `mappages` mapped.
use proj.Common.{
  ℕ, zero, suc, ◌+◌, ◌-◌, ◌*◌, ◌/◌, ◌%◌, ◌^◌, ◌<◌, ◌≡◌, ◌≢◌, refl, sym, ap, ◌∙◌, Bool, true, false,
  Run, ok, arith, leb, ◌==◌, ==_refl, Bool-cases, inl, inr, if◌then◌else◌,
}
use mathlib.Core.Bool.{true≢false}
use proj.Memory.{pgsize, pground_down}
use proj.Kalloc.{Machine}
use proj.Vm.{
  maxva, walk_loop, walk, walkaddr, px, pte2pa, pa2pte, pte_v, pte_u, set_bit, set_word,
  mappages_loop, mappages_within, mappages,
}
use proj.Vm.Entry.{pte2pa-pa2pte}

-- The walk finds entry `p`, which is not valid yet.
pub record Finds (id level pagetable va : ℕ) (m : Machine) (p : ℕ) : Type 0 where
  pub found : walk_loop id level pagetable va false m ≡ ok (p, m)
  pub some_entry : p ≢ 0
  pub invalid : pte_v (m.mem p) ≡ false

walk_loop-next :
    (id level pagetable va : ℕ) (alloc : Bool) (m : Machine)
    → pte_v (m.mem (pagetable + 8 * px (suc level) va)) ≡ true
    → walk_loop id (suc level) pagetable va alloc m
      ≡ walk_loop id level (pte2pa (m.mem (pagetable + 8 * px (suc level) va))) va alloc m
unfolding walk_loop
walk_loop-next id level pagetable va alloc m v = rw v refl

walk_loop-missing :
    (id level pagetable va : ℕ) (m : Machine)
    → pte_v (m.mem (pagetable + 8 * px (suc level) va)) ≡ false
    → walk_loop id (suc level) pagetable va false m ≡ ok (0, m)
unfolding walk_loop
walk_loop-missing id level pagetable va m v = rw v refl

entry_of : Run (ℕ × Machine) → ℕ
entry_of (ok (p, m)) = p
entry_of _ = 0

entry_of_ok :
    (p q : ℕ) (m m' : Machine) → ◌≡◌ {A = Run (ℕ × Machine)} (ok (p, m)) (ok (q, m')) → p ≡ q
unfolding entry_of
entry_of_ok p q m m' e = ap entry_of e

-- A table above the entry is there, and goes on to the next.
Finds-next :
    {id level pagetable va : ℕ} {m : Machine} {p : ℕ}
    → Finds id (suc level) pagetable va m p
    → (pte_v (m.mem (pagetable + 8 * px (suc level) va)) ≡ true)
      × Finds id level (pte2pa (m.mem (pagetable + 8 * px (suc level) va))) va m p
Finds-next {id} {level} {pagetable} {va} {m} {p} f =
    elim (Bool-cases (pte_v (m.mem (pagetable + 8 * px (suc level) va)))) [
      | inl v ↦ (
        v,
        record {
          found = rw (← walk_loop-next id level pagetable va false m v) f.found;
          some_entry = f.some_entry;
          invalid = f.invalid;
        },
      )
      | inr w ↦ absurd (
          f.some_entry
            (entry_of_ok p 0 m m (sym f.found ∙ walk_loop-missing id level pagetable va m w)))
    ]

-- Where all tables are there it makes no difference that the walk may allocate.
walk_loop-alloc :
    (id level pagetable va : ℕ) {m : Machine} {p : ℕ}
    → Finds id level pagetable va m p
    → walk_loop id level pagetable va true m ≡ ok (p, m)
unfolding walk_loop
walk_loop-alloc id zero pagetable va f = f.found
walk_loop-alloc id (suc level) pagetable va {m} f =
    let (v, f') = Finds-next f in
    rw v (walk_loop-alloc id level (pte2pa (m.mem (pagetable + 8 * px (suc level) va))) va f')

store_other :
    (m : Machine) (p q w : ℕ)
    → pte_v (m.mem q) ≡ true
    → pte_v (m.mem p) ≡ false
    → (set_word p w m).mem q ≡ m.mem q
store_other m p q w v i = elim (Bool-cases (q == p)) [
  | inl same ↦
      let e : q ≡ p = ground arith in absurd (true≢false (sym v ∙ ap (λ x. pte_v (m.mem x)) e ∙ i))
  | inr other ↦ rw other refl
]

walk_loop-set_word_last :
    (id pagetable va w : ℕ) {m : Machine} {p : ℕ}
    → Finds id 0 pagetable va m p
    → walk_loop id 0 pagetable va false (set_word p w m) ≡ ok (p, set_word p w m)
unfolding walk_loop
walk_loop-set_word_last id pagetable va w {m} {p} f =
    ap (λ x. ok (x, set_word p w m)) (entry_of_ok (pagetable + 8 * px 0 va) p m m f.found)

-- What is written to the entry does not lead the walk astray: the entries above it are valid, and
-- it is not.
walk_loop-set_word :
    (id level pagetable va w : ℕ) {m : Machine} {p : ℕ}
    → Finds id level pagetable va m p
    → walk_loop id level pagetable va false (set_word p w m) ≡ ok (p, set_word p w m)
walk_loop-set_word id zero pagetable va w {m} {p} f = walk_loop-set_word_last id pagetable va w f
walk_loop-set_word id (suc level) pagetable va w {m} {p} f =
    let (v, f') = Finds-next f in
    let q = pagetable + 8 * px (suc level) va in
    let same : (set_word p w m).mem q ≡ m.mem q = store_other m p q w v f.invalid in
    walk_loop-next id level pagetable va false (set_word p w m) (rw same v)
    ∙ rw same (walk_loop-set_word id level (pte2pa (m.mem q)) va w f')

mappages_loop-one :
    (id fuel pagetable va pa perm : ℕ) {m : Machine} {p : ℕ}
    → Finds id 2 pagetable va m p
    → va < maxva
    → mappages_loop id (suc fuel) pagetable va va pa perm m
      ≡ ok (true, set_word p (set_bit 0 (pa2pte pa + perm)) m)
unfolding mappages_loop walk
mappages_loop-one id fuel pagetable va pa perm {m} {p} f lt =
    let below : leb maxva va ≡ false = ground arith in
    let some_entry : (p == 0) ≡ false = ground (arith, f.some_entry) in
    rw (below, walk_loop-alloc id 2 pagetable va f, some_entry, f.invalid, ==_refl va) refl

mappages_within-one :
    (id fuel pagetable va pa perm : ℕ) {m : Machine} {p : ℕ}
    → va % pgsize ≡ 0
    → Finds id 2 pagetable va m p
    → va < maxva
    → mappages_within id (suc fuel) pagetable va pgsize pa perm m
      ≡ ok (true, set_word p (set_bit 0 (pa2pte pa + perm)) m)
unfolding mappages_within
mappages_within-one id fuel pagetable va pa perm al f lt =
    let last : pground_down ((va + pgsize + 2 ^ 64 - 1) % 2 ^ 64) ≡ va = omega arith in
    let from : pground_down va ≡ va = omega arith in
    rw (last, from) (mappages_loop-one id fuel pagetable va pa perm f lt)

walkaddr-set_word :
    (id pagetable va pa perm : ℕ) {m : Machine} {p : ℕ}
    → Finds id 2 pagetable va m p
    → va < maxva
    → pa % pgsize ≡ 0
    → pa < 2 ^ 56
    → perm < 2 ^ 10
    → walkaddr id pagetable va (set_word p (set_bit 0 (pa2pte pa + perm)) m)
      ≡ ok (if pte_u perm then pa else 0)
unfolding walkaddr walk
walkaddr-set_word id pagetable va pa perm {m} {p} f lt al small ps =
    let w = set_bit 0 (pa2pte pa + perm) in
    let below : leb maxva va ≡ false = ground arith in
    let some_entry : (p == 0) ≡ false = ground (arith, f.some_entry) in
    let (back, _, valid) = pte2pa-pa2pte pa perm al small ps in
    let user : pte_u w ≡ pte_u perm = ground arith in
    rw (below, walk_loop-set_word id 2 pagetable va w f, some_entry, ==_refl p, valid, user)
      (elim (Bool-cases (pte_u perm)) [ inl u ↦ rw u (ap ok back) | inr u ↦ rw u refl ])

-- `mappages` of one page below MAXVA whose tables are all there and whose entry is not valid yet,
-- with both addresses at the start of a page, the physical one below 2 ^ 56, and the permissions in
-- the ten low bits of an entry, returns success and writes the entry and no other word. After it
-- `walkaddr` finds the page that was mapped if the permissions let the user access it, and else 0.
pub walkaddr-mappages :
    (id pagetable va pa perm : ℕ) {m : Machine} {p : ℕ}
    → Finds id 2 pagetable va m p
    → va < maxva
    → va % pgsize ≡ 0
    → pa % pgsize ≡ 0
    → pa < 2 ^ 56
    → perm < 2 ^ 10
    → (m' : Machine) × (mappages id pagetable va pgsize pa perm m ≡ ok (true, m'))
      × (walkaddr id pagetable va m' ≡ ok (if pte_u perm then pa else 0))
      × ((a : ℕ) → a ≢ p → m'.mem a ≡ m.mem a)
unfolding mappages
walkaddr-mappages id pagetable va pa perm {m} {p} f lt al pal small ps = (
  set_word p (set_bit 0 (pa2pte pa + perm)) m,
  mappages_within-one id (maxva / pgsize) pagetable va pa perm al f lt,
  walkaddr-set_word id pagetable va pa perm f lt pal small ps,
  λ a ne. ground arith,
)
