-- ===== src/Ulib/Input.antt =====
-- user/ulib.c: `gets`.
use proj.Common.{
  ℕ, ◌+◌, ◌≤◌, ◌<◌, ◌≡◌, refl, ◌∙◌, ◌||◌, ◌⊎◌, List, [], ◌∷◌, arith, ltb, ◌==◌, ==_refl, Bool-cases,
  inl, inr,
}
use proj.Kstring.{Bytes, store}
use proj.Ulib.{gets, gets_loop}

-- The loop ends at an index below `max`, and writes to the buffer alone.
abbrev Bounded : ℕ → ℕ → Bytes → ℕ × List ℕ × Bytes → Type 0
Bounded buf max m r = (r.0 < max) × ((a : ℕ) → (a < buf) ⊎ (buf + max ≤ a) → r.2 a ≡ m a)

gets_loop-Bounded :
    (buf max i : ℕ) (cs : List ℕ) (m : Bytes)
    → i < max
    → Bounded buf max m (gets_loop buf max i cs m)
unfolding gets_loop
gets_loop-Bounded buf max i [] m lt = (lt, λ a out. refl)
gets_loop-Bounded buf max i (c ∷ cs) m lt = elim (Bool-cases (ltb (i + 1) max)) [
  | inl room ↦ elim (Bool-cases ((c == 10) || (c == 13))) [
    | inl stop ↦ rw (room, stop) (ground arith, λ a out. ground arith)
    | inr more ↦
        let (below, kept) =
          gets_loop-Bounded buf max (i + 1) cs (store m (buf + i) c) (ground arith) in
        rw (room, more) (below, λ a out. kept a out ∙ ground arith)
  ]
  | inr full ↦ rw full (lt, λ a out. refl)
]

-- Whatever the input, `gets` with a buffer of at least one byte leaves a NUL in the buffer, and
-- writes nothing outside it.
pub gets-bounded :
    (buf max : ℕ) (input : List ℕ) (m : Bytes)
    → 0 < max
    → ((i : ℕ) × (i < max) × ((gets buf max input m).1 (buf + i) ≡ 0))
      × ((a : ℕ) → (a < buf) ⊎ (buf + max ≤ a) → (gets buf max input m).1 a ≡ m a)
unfolding gets
gets-bounded buf max input m pos =
    let (below, kept) = gets_loop-Bounded buf max 0 input m pos in
    let i = (gets_loop buf max 0 input m).0 in
    ((i, below, rw (==_refl (buf + i)) refl), λ a out. ground (arith, kept a out))
