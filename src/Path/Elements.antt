-- ===== src/Path/Elements.antt =====
-- kernel/fs.c: `skipelem` takes the names of a path one after the other.
use proj.Common.{
  ℕ, ◌≤◌, ◌<◌, ◌≡◌, refl, sym, ap, true, false, Option, none, some, List, [], ◌∷◌, length, take,
  arith, ◌==◌, if◌then◌else◌, Bool-cases, inl, inr,
}
use proj.Path.{slash, dirsiz, skip_slashes, skip_name, cut_name, skipelem, at_end}

abbrev cons_head : ℕ → List (List ℕ) → List (List ℕ)
cons_head c [] = (c ∷ []) ∷ []
cons_head c (w ∷ ws) = (c ∷ w) ∷ ws

-- A path cut at every slash.
abbrev pub pieces : List ℕ → List (List ℕ)
pieces [] = [] ∷ []
pieces (c ∷ cs) = if c == slash then [] ∷ pieces cs else cons_head c (pieces cs)

-- The pieces that are not empty, each cut to DIRSIZ bytes.
abbrev pub names : List (List ℕ) → List (List ℕ)
names [] = []
names (w ∷ ws) = if at_end w then names ws else take dirsiz w ∷ names ws

abbrev pub elements : List ℕ → List (List ℕ)
elements path = names (pieces path)

elements-skip_slashes : (path : List ℕ) → elements (skip_slashes path) ≡ elements path
elements-skip_slashes [] = refl
elements-skip_slashes (c ∷ cs) = elim (Bool-cases (c == slash)) [
  | inl s ↦ rw s (elements-skip_slashes cs)
  | inr n ↦ rw (n, n) refl
]

-- The pieces of what `skip_name` leaves, without the empty one before its slash.
abbrev after_slash : List ℕ → List (List ℕ)
after_slash [] = []
after_slash (c ∷ cs) = pieces cs

pieces-skip_name :
    (path : List ℕ) → pieces path ≡ (skip_name path).0 ∷ after_slash (skip_name path).1
pieces-skip_name [] = refl
pieces-skip_name (c ∷ cs) = elim (Bool-cases (c == slash)) [
  | inl s ↦ rw s refl
  | inr n ↦ rw (n, pieces-skip_name cs) refl
]

names-after_slash :
    (path : List ℕ)
    → names (after_slash (skip_name path).1) ≡ elements (skip_slashes (skip_name path).1)
names-after_slash [] = refl
names-after_slash (c ∷ cs) = elim (Bool-cases (c == slash)) [
  | inl s ↦ rw (s, s) (sym (elements-skip_slashes cs))
  | inr n ↦ rw n (names-after_slash cs)
]

length-skip_slashes : (path : List ℕ) → length (skip_slashes path) ≤ length path
length-skip_slashes [] = omega arith
length-skip_slashes (c ∷ cs) = elim (Bool-cases (c == slash)) [
  | inl s ↦ rw s (omega (arith, length-skip_slashes cs))
  | inr n ↦ rw n (omega arith)
]

length-skip_name : (path : List ℕ) → length (skip_name path).1 ≤ length path
length-skip_name [] = omega arith
length-skip_name (c ∷ cs) = elim (Bool-cases (c == slash)) [
  | inl s ↦ rw s (omega arith)
  | inr n ↦ rw n (omega (arith, length-skip_name cs))
]

-- What `skipelem` returns for a path.
abbrev pub Skipped : List ℕ → Option (List ℕ × List ℕ) → Type 0
Skipped path none = elements path ≡ []
Skipped path (some (rest, name)) =
    (elements path ≡ name ∷ elements rest)
    × (length rest < length path)
    × (at_end rest ≡ at_end (elements rest))

-- A path without slashes in front is at its end where it has no names.
at_end-elements :
    (path : List ℕ) → at_end (skip_slashes path) ≡ at_end (elements (skip_slashes path))
at_end-elements [] = refl
at_end-elements (c ∷ cs) = elim (Bool-cases (c == slash)) [
  | inl s ↦ rw s (at_end-elements cs)
  | inr n ↦ rw (n, n, pieces-skip_name cs) refl
]

cut_name-Skipped :
    (c : ℕ) (cs : List ℕ) → (c == slash) ≡ false → Skipped (c ∷ cs) (cut_name (c ∷ cs))
cut_name-Skipped c cs n =
    rw (n, pieces-skip_name cs)
      (
        ap (λ ws. take dirsiz (c ∷ (skip_name cs).0) ∷ ws) (names-after_slash cs),
        omega (arith, length-skip_slashes (skip_name cs).1, length-skip_name cs),
        at_end-elements (skip_name cs).1,
      )

Skipped-slash :
    (c : ℕ) (cs : List ℕ) (o : Option (List ℕ × List ℕ))
    → (c == slash) ≡ true
    → Skipped cs o
    → Skipped (c ∷ cs) o
Skipped-slash c cs none s h = rw s h
Skipped-slash c cs (some (rest, name)) s (e, lt, end) = rw s (e, omega (arith, lt), end)

-- `skipelem` returns the first name of the path, cut to DIRSIZ bytes, and a shorter path with the
-- rest of them, which is empty where no name is left; it returns 0 where the path has no name.
pub skipelem-Skipped : (path : List ℕ) → Skipped path (skipelem path)
unfolding skipelem
skipelem-Skipped [] = refl
skipelem-Skipped (c ∷ cs) = elim (Bool-cases (c == slash)) [
  | inl s ↦ rw s (Skipped-slash c cs (cut_name (skip_slashes cs)) s (skipelem-Skipped cs))
  | inr n ↦ rw n (cut_name-Skipped c cs n)
]
