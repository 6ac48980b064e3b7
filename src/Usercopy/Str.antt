-- ===== src/Usercopy/Str.antt =====
-- kernel/vm.c: `copyinstr` brings a string up to its NUL, or none ends in time.
use proj.Common.{
  ℕ, zero, suc, ◌+◌, ◌-◌, ◌/◌, ◌≤◌, ◌<◌, ◌≡◌, ◌≢◌, sym, ap, ◌∙◌, ◌⊎◌, inl, inr, arith, ok, ◌==◌,
  ltb, leb, ==_refl, min, subst, true, false, if◌then◌else◌, Bool-cases, fun_ext,
}
use proj.Memory.{pgsize, pground_down}
use proj.Kalloc.{Machine}
use proj.Vm.{walkaddr}
use proj.Usercopy.{Table, Bytes, part, moved, next_page, copy_until_null, copyinstr_loop, copyinstr}
use proj.Usercopy.Pages.{
  place, Mapped, top, part-pos, part-le, next_page-part, place-part, Mapped-next, turn_found,
  top-next,
}
use proj.Usercopy.In.{brought, brought-first, brought-next}

-- None of the `n` bytes from `p` is 0.
abbrev NoNull : Bytes → ℕ → ℕ → Type 0
NoNull bytes p n = (i : ℕ) → i < n → bytes (p + i) ≢ 0

NoNull-head : (bytes : Bytes) (p n : ℕ) → NoNull bytes p (suc n) → (bytes p == 0) ≡ false
NoNull-head bytes p n h =
    let nonzero : bytes p ≢ 0 = λ e. h 0 (omega arith) (ap bytes (omega arith) ∙ e) in ground arith

NoNull-tail : (bytes : Bytes) (p n : ℕ) → NoNull bytes p (suc n) → NoNull bytes (p + 1) n
NoNull-tail bytes p n h i l e = h (suc i) (omega arith) (ap bytes (omega arith) ∙ e)

moved-first :
    (dst : Bytes) (d : ℕ) (bytes : Bytes) (p n : ℕ)
    → moved (λ a. if a == d then bytes p else dst a) (d + 1) bytes (p + 1) n
      ≡ moved dst d bytes p (suc n)
moved-first dst d bytes p n = fun_ext (λ a. elim (Bool-cases (a == d)) [
  | inl e ↦
      let here : d ≡ a = ground arith in
      let same : p + (a - d) ≡ p = omega (arith, here) in rw same (ground arith)
  | inr e ↦ elim (Bool-cases (leb (d + 1) a)) [
    | inl l ↦
        let same : p + 1 + (a - (d + 1)) ≡ p + (a - d) = ground arith in rw same (ground arith)
    | inr l ↦ ground arith
  ]
])

copy_until_null-none :
    (n : ℕ) (dst : Bytes) (d p : ℕ) (bytes : Bytes)
    → NoNull bytes p n
    → copy_until_null n dst d p bytes ≡ (false, moved dst d bytes p n)
unfolding copy_until_null
copy_until_null-none zero dst d p bytes h = ap (λ b. (false, b)) (fun_ext (λ a. ground arith))
copy_until_null-none (suc n) dst d p bytes h =
    let more = NoNull-head bytes p n h in
    let rest =
      copy_until_null-none n (λ a. if a == d then bytes p else dst a) (d + 1) (p + 1) bytes
        (NoNull-tail bytes p n h) in
    rw (more, rest) (ap (λ b. (false, b)) (moved-first dst d bytes p n))

copy_until_null-found :
    (n k : ℕ) (dst : Bytes) (d p : ℕ) (bytes : Bytes)
    → k < n
    → NoNull bytes p k
    → bytes (p + k) ≡ 0
    → copy_until_null n dst d p bytes ≡ (true, moved dst d bytes p (suc k))
unfolding copy_until_null
copy_until_null-found zero k dst d p bytes l h e = absurd (omega arith)
copy_until_null-found (suc n) zero dst d p bytes l h e =
    let here : bytes p ≡ 0 = ap bytes (omega arith) ∙ e in
    rw here (
      ap (λ b. (true, b))
        (fun_ext (λ a. elim (Bool-cases (a == d)) [
          | inl s ↦ let at : p + (a - d) ≡ p = ground arith in rw (at, here) (ground arith)
          | inr s ↦ ground arith
        ])))
copy_until_null-found (suc n) (suc k) dst d p bytes l h e =
    let more = NoNull-head bytes p k h in
    let rest =
      copy_until_null-found n k (λ a. if a == d then bytes p else dst a) (d + 1) (p + 1) bytes
        (omega arith) (NoNull-tail bytes p k h) (ap bytes (omega arith) ∙ e) in
    rw (more, rest) (ap (λ b. (true, b)) (moved-first dst d bytes p (suc k)))

-- None of the user's `n` bytes from `va` is 0.
abbrev pub Text : (ℕ → ℕ) → Bytes → ℕ → ℕ → Type 0
Text pa bytes va n = (i : ℕ) → i < n → bytes (place pa (va + i)) ≢ 0

module _ (table : Table) (pa : ℕ → ℕ) (bytes : Bytes) where
  -- The part of a text that lies in the first page.
  Text-NoNull :
      (va len n : ℕ)
      → Text pa bytes va n
      → n ≤ part va len
      → NoNull bytes (pa (va / pgsize) + (va - pground_down va)) n
  Text-NoNull va len n h l i k e = h i k (ap bytes (place-part pa va len i (omega arith)) ∙ e)

  Text-next :
      (va len n : ℕ)
      → va < top
      → n ≤ len
      → part va len ≤ n
      → Text pa bytes va n
      → Text pa bytes (next_page va) (n - part va len)
  Text-next va len n t f l h i k e =
      h (part va len + i) (omega arith)
        (ap (λ v. bytes (place pa v)) (omega (arith, next_page-part va len (omega arith) t)) ∙ e)

  copyinstr_loop-found :
      (fuel : ℕ) (dst : Bytes) (d va max k : ℕ)
      → Mapped table pa va (suc k)
      → (0 < max → va + max < top)
      → max < fuel
      → k < max
      → Text pa bytes va k
      → bytes (place pa (va + k)) ≡ 0
      → copyinstr_loop fuel table dst d va max bytes ≡ ok (true, brought pa dst d va (suc k) bytes)
  unfolding copyinstr_loop
  copyinstr_loop-found zero dst d va max k m t f l h z = absurd (omega arith)
  copyinstr_loop-found (suc fuel) dst d va max k m t f l h z =
      let n = part va max in
      let low = t (omega arith) in
      let to = pa (va / pgsize) + (va - pground_down va) in
      let turn = turn_found table pa va max (suc k) (omega arith) (omega arith) m in
      elim (Bool-cases (ltb k n)) [
        | inl first ↦
            let found =
              copy_until_null-found n k dst d to bytes (ground arith)
                (Text-NoNull va max k h (ground arith))
                (ap bytes (sym (place-part pa va max k (ground arith))) ∙ z) in
            rw (turn.0, turn.1, turn.2, found)
              (ap (λ b. ok (true, b))
                (fun_ext (brought-first pa dst d va max (suc k) bytes (ground arith))))
        | inr later ↦
            let past : n ≤ k = ground arith in
            let passed =
              copy_until_null-none n dst d to bytes
                (Text-NoNull va max n (λ i j. h i (omega arith)) (omega arith)) in
            let at : next_page va + (k - n) ≡ va + k =
              omega (arith, next_page-part va max (omega arith) (omega arith)) in
            let size : suc (k - n) ≡ suc k - n = omega arith in
            let rest =
              copyinstr_loop-found fuel (moved dst d bytes to n) (d + n) (next_page va) (max - n)
                (k - n)
                (subst (Mapped table pa (next_page va)) (sym size)
                  (Mapped-next table pa va max (suc k) (omega arith) (omega arith) m))
                (top-next va max t) (omega (arith, part-pos va max)) (omega arith)
                (Text-next va max k (omega arith) (omega arith) past h)
                (ap (λ v. bytes (place pa v)) at ∙ z) in
            rw (turn.0, turn.1, turn.2, passed, rest, size)
              (ap (λ b. ok (true, b))
                (fun_ext (
                  brought-next pa dst d va max (suc k) bytes (omega arith) (omega arith)
                    (omega arith))))
      ]

  copyinstr_loop-none :
      (fuel : ℕ) (dst : Bytes) (d va max : ℕ)
      → Mapped table pa va max
      → (0 < max → va + max < top)
      → max < fuel
      → Text pa bytes va max
      → copyinstr_loop fuel table dst d va max bytes ≡ ok (false, brought pa dst d va max bytes)
  unfolding copyinstr_loop
  copyinstr_loop-none zero dst d va max m t f h = absurd (omega arith)
  copyinstr_loop-none (suc fuel) dst d va zero m t f h =
      ap (λ b. ok (false, b)) (fun_ext (λ a. ground arith))
  copyinstr_loop-none (suc fuel) dst d va (suc less) m t f h =
      let max = suc less in
      let n = part va max in
      let low = t (omega arith) in
      let to = pa (va / pgsize) + (va - pground_down va) in
      let turn = turn_found table pa va max max (omega arith) (omega arith) m in
      let fits = part-le va max in
      let passed =
        copy_until_null-none n dst d to bytes
          (Text-NoNull va max n (λ i j. h i (omega arith)) (omega arith)) in
      let rest =
        copyinstr_loop-none fuel (moved dst d bytes to n) (d + n) (next_page va) (max - n)
          (Mapped-next table pa va max max (omega arith) (omega arith) m) (top-next va max t)
          (omega (arith, part-pos va max))
          (Text-next va max max (omega arith) (omega arith) fits h) in
      rw (turn.0, turn.1, turn.2, passed, rest)
        (ap (λ b. ok (false, b))
          (fun_ext (brought-next pa dst d va max max bytes fits (omega arith) (omega arith))))

-- `copyinstr` of at most `max` bytes below 2 ^ 63, where byte `k` is the first that is 0, or `k` is
-- `max` and none is, and the pages up to there are mapped: in the first case it returns 0 and has
-- put the bytes up to the 0 at `d`, in the other it returns -1 and has put `max` bytes there.
pub copyinstr-brought :
    (id pagetable : ℕ) (m : Machine) (pa : ℕ → ℕ) (dst : Bytes) (d va max k : ℕ) (bytes : Bytes)
    → Mapped (λ v. walkaddr id pagetable v m) pa va (min (suc k) max)
    → va + max < top
    → Text pa bytes va k
    → (k ≡ max) ⊎ ((k < max) × (bytes (place pa (va + k)) ≡ 0))
    → copyinstr id pagetable m dst d va max bytes ≡ (
        if k == max
        then ok (false, brought pa dst d va max bytes)
        else ok (true, brought pa dst d va (suc k) bytes))
unfolding copyinstr
copyinstr-brought id pagetable m pa dst d va max k bytes h t text (inl e) =
    rw (e, ==_refl max)
      (copyinstr_loop-none (λ v. walkaddr id pagetable v m) pa bytes (suc max) dst d va max
        (λ v x y. h v x (omega arith)) (λ p. t) (omega arith) (λ i x. text i (omega arith)))
copyinstr-brought id pagetable m pa dst d va max k bytes h t text (inr (f, z)) =
    let other : (k == max) ≡ false = ground arith in
    rw other (
      copyinstr_loop-found (λ v. walkaddr id pagetable v m) pa bytes (suc max) dst d va max k
        (λ v x y. h v x (omega arith)) (λ p. t) (omega arith) f text z)
