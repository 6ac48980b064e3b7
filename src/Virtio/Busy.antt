-- ===== src/Virtio/Busy.antt =====
-- kernel/virtio_disk.c: with few free descriptors there are requests.
use proj.Common.{
  ℕ, zero, suc, ◌+◌, ◌*◌, ◌≤◌, ◌<◌, ◌≡◌, refl, Bool, List, [], ◌∷◌, length, count, ltb,
  if◌then◌else◌, arith,
}
use proj.Virtio.{num, Vdisk}
use proj.Virtio.Descs.{frees}
use proj.Virtio.Chains.{Chain, members, Holds}

-- How often the first `n` numbers stand in a list, together.
abbrev tally : ℕ → List ℕ → ℕ
tally zero xs = 0
tally (suc n) xs = count n xs + tally n xs

tally-cons : (n x : ℕ) (xs : List ℕ) → tally n (x ∷ xs) ≡ tally n xs + (if ltb x n then 1 else 0)
tally-cons zero x xs = ground arith
tally-cons (suc n) x xs = ground (arith, tally-cons n x xs)

tally-nil : (n : ℕ) → tally n [] ≡ 0
tally-nil zero = refl
tally-nil (suc n) = omega (arith, tally-nil n)

tally-le : (n : ℕ) (xs : List ℕ) → tally n xs ≤ length xs
tally-le n [] = omega (arith, tally-nil n)
tally-le n (x ∷ xs) = ground (arith, tally-cons n x xs, tally-le n xs)

frees-tally :
    (n : ℕ) (f : ℕ → Bool) (xs : List ℕ)
    → ((i : ℕ) → i < n → (if f i then 1 else 0) + count i xs ≡ 1)
    → frees n f + tally n xs ≡ n
frees-tally zero f xs h = refl
frees-tally (suc n) f xs h =
    ground (arith, h n (omega arith), frees-tally n f xs (λ i l. h i (omega arith)))

length-members : (cs : List Chain) → length (members cs) ≡ 3 * length cs
length-members [] = refl
length-members (c ∷ cs) = omega (arith, length-members cs)

-- With fewer than three free descriptors there are at least two requests.
pub busy : (cs : List Chain) (d : Vdisk) → Holds cs d → frees num d.free < 3 → 2 ≤ length cs
busy cs d h f = omega (
  arith,
  frees-tally num d.free (members cs) h.split,
  tally-le num (members cs),
  length-members cs,
)
