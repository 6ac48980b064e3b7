-- ===== src/Common/Outcome.antt =====
-- What a piece of kernel code does: it returns, it panics, or it waits for another processor.
use mathlib.Core.Path.{◌≡◌, refl, ap}
use mathlib.Core.Logic.{◌≢◌}
use mathlib.Core.Bool.{Bool, true, false}

-- `blocked` is a loop that this code alone does not leave: a spin on a held lock, a sleep.
pub data Run {ℓ} (A : Type ℓ) : Type ℓ where
  ok : A → Run A
  panic : Run A
  blocked : Run A

infixl 5 ◌>>=◌ ◌>>◌
abbrev pub ◌>>=◌ {κ μ} : {X : Type κ} {Y : Type μ} → Run X → (X → Run Y) → Run Y
panic >>= k = panic
blocked >>= k = blocked
ok x >>= k = k x

abbrev pub ◌>>◌ {κ} : {Y : Type κ} → Run (Unit {0}) → Run Y → Run Y
check >> next = check >>= λ _. next

-- `if(b) panic(...)`
abbrev pub panic_if : Bool → Run (Unit {0})
panic_if true = panic
panic_if false = ok tt

pub >>=-eq-ok {κ μ} :
    {X : Type κ} {Y : Type μ} (r : Run X) (k : X → Run Y) {y : Y}
    → (r >>= k) ≡ ok y
    → (x : X) × (r ≡ ok x) × (k x ≡ ok y)
>>=-eq-ok panic k e = cc
>>=-eq-ok blocked k e = cc
>>=-eq-ok (ok x) k e = (x, refl, e)

pub >>=-assoc {κ μ ν} :
    {X : Type κ} {Y : Type μ} {Z : Type ν} (r : Run X) (j : X → Run Y) (k : Y → Run Z)
    → r >>= j >>= k ≡ r >>= λ x. j x >>= k
>>=-assoc panic j k = refl
>>=-assoc blocked j k = refl
>>=-assoc (ok x) j k = refl

-- What neither panics nor waits returns.
pub returns_ok {ℓ} : {A : Type ℓ} (m : Run A) → m ≢ panic → m ≢ blocked → (a : A) × (m ≡ ok a)
returns_ok (ok a) p b = (a, refl)
returns_ok panic p b = absurd (p refl)
returns_ok blocked p b = absurd (b refl)

pub ok-injective {ℓ} : {A : Type ℓ} (a b : A) → ok a ≡ ok b → a ≡ b
ok-injective a b e = ap (λ r. elim r [ ok c ↦ c | _ ↦ a ]) e
