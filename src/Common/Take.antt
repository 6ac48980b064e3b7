-- ===== src/Common/Take.antt =====
-- The beginning of a list.
use Prim.Native.Nat.{ℕ, zero, suc, ◌-◌, ◌≤◌}
use mathlib.Core.Path.{◌≡◌, refl, ap}
use mathlib.Core.Logic.{◌⊎◌, inl, inr}
use mathlib.Core.List.{List, [], ◌∷◌, ◌++◌}
use native.Mathlib.Nat.{sub-zero, zero-sub, suc-sub-suc}
use native.Mathlib.Omega.{arith}
use proj.Common.Lists.{length, take}

pub take-append :
    {A : Type 0} (k : ℕ) (xs ys : List A) → take k (xs ++ ys) ≡ take k xs ++ take (k - length xs) ys
take-append zero xs ys = rw (zero-sub (length xs))
take-append (suc k) [] ys = rw sub-zero
take-append (suc k) (x ∷ xs) ys = rw suc-sub-suc (ap (λ l. x ∷ l) (take-append k xs ys))

pub take_all : {A : Type 0} (k : ℕ) (xs : List A) → length xs ≤ k → take k xs ≡ xs
take_all zero [] h = refl
take_all zero (x ∷ xs) h = absurd (omega arith)
take_all (suc k) [] h = refl
take_all (suc k) (x ∷ xs) h = ap (λ l. x ∷ l) (take_all k xs (omega arith))

pub take-snoc :
    {A : Type 0} (j : ℕ) (xs : List A) (e : A)
    → (take j (xs ++ (e ∷ [])) ≡ take j xs) ⊎ (take j (xs ++ (e ∷ [])) ≡ xs ++ (e ∷ []))
take-snoc zero xs e = inl refl
take-snoc (suc zero) [] e = inr refl
take-snoc (suc (suc j)) [] e = inr refl
take-snoc (suc j) (x ∷ xs) e = elim (take-snoc j xs e) [
  | inl h ↦ inl (ap (λ l. x ∷ l) h)
  | inr h ↦ inr (ap (λ l. x ∷ l) h)
]

pub take_none : {A : Type 0} (n : ℕ) (xs : List A) → n ≡ 0 → take n xs ≡ []
take_none zero xs e = refl
take_none (suc n) xs e = absurd (omega arith)

pub take-nil : {A : Type 0} (k : ℕ) → take {A = A} k [] ≡ []
take-nil zero = refl
take-nil (suc k) = refl
