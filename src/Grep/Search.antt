-- ===== src/Grep/Search.antt =====
-- user/grep.c: `match` searches the text.
use proj.Common.{
  ℕ, ◌≡◌, ◌↔◌, ◌⊎◌, refl, sym, ap, ◌∙◌, Bool, true, false, List, [], ◌∷◌, ◌++◌, arith, ◌==◌,
  if◌then◌else◌, Bool-cases, inl, inr,
}
use proj.Grep.{caret, matchhere, match_from, match}
use proj.Grep.Regex.{parse, Matches, matchhere-Starts}

-- Whether the expression starts with a caret, and what comes after that.
abbrev pub at_start : List ℕ → Bool
at_start [] = false
at_start (c ∷ re) = c == caret

abbrev pub body : List ℕ → List ℕ
body [] = []
body (c ∷ re) = if c == caret then re else c ∷ re

-- Somewhere in the text, or at its start, stands what the expression matches.
abbrev pub Occurs : List ℕ → List ℕ → Type 0
Occurs re text =
    (before : List ℕ) × (u : List ℕ) × (v : List ℕ) × (text ≡ before ++ (u ++ v))
    × ((at_start re ≡ false) ⊎ (before ≡ []))
    × Matches (parse (body re)) u v

Later : List ℕ → List ℕ → Type 0
Later re text =
    (before : List ℕ) × (rest : List ℕ) × (text ≡ before ++ rest) × (matchhere re rest ≡ true)

match_from-Later : (re text : List ℕ) → match_from re text ≡ true → Later re text
unfolding match_from Later
match_from-Later re [] h = ([], [], refl, h)
match_from-Later re (x ∷ text) h = elim (Bool-cases (matchhere re (x ∷ text))) [
  | inl now ↦ ([], x ∷ text, refl, now)
  | inr later ↦
      let (before, rest, e, h') = match_from-Later re text (rw (sym h, later) refl) in
      (x ∷ before, rest, ap (λ l. x ∷ l) e, h')
]

Later-match_from :
    (re before rest : List ℕ) → matchhere re rest ≡ true → match_from re (before ++ rest) ≡ true
unfolding match_from
Later-match_from re [] [] h = h
Later-match_from re [] (x ∷ rest) h = rw h refl
Later-match_from re (x ∷ before) rest h = ground (arith, Later-match_from re before rest h)

-- The expression without a caret matches somewhere.
Found : List ℕ → List ℕ → Type 0
Found re text =
    (before : List ℕ) × (u : List ℕ) × (v : List ℕ) × (text ≡ before ++ (u ++ v))
    × Matches (parse re) u v

match_from-Found : (re text : List ℕ) → (match_from re text ≡ true) ↔ Found re text
unfolding Later Found
match_from-Found re text = (
  λ h.
      let (before, rest, e, h') = match_from-Later re text h in
      let (u, v, e', m) = (matchhere-Starts re rest).0 h' in
      (before, u, v, e ∙ ap (λ l. before ++ l) e', m),
  λ (before, u, v, e, m).
      rw e (Later-match_from re before (u ++ v) ((matchhere-Starts re (u ++ v)).1 (u, v, refl, m))),
)

no_before : (before : List ℕ) → (true ≡ false) ⊎ (before ≡ []) → before ≡ []
no_before before (inl h) = cc
no_before before (inr e) = e

-- `match` holds exactly where the expression occurs in the text: at its start if the expression
-- begins with a caret, and else anywhere.
pub match-Occurs : (re text : List ℕ) → (match re text ≡ true) ↔ Occurs re text
unfolding match Found
match-Occurs [] text = (
  λ h. let (before, u, v, e, m) = (match_from-Found [] text).0 h in (before, u, v, e, inl refl, m),
  λ (before, u, v, e, free, m). (match_from-Found [] text).1 (before, u, v, e, m),
)
match-Occurs (c ∷ re) text = elim (Bool-cases (c == caret)) [
  | inr off ↦
      let f = match_from-Found (c ∷ re) text in
      rw off (
        λ h. let (before, u, v, e, m) = f.0 h in (before, u, v, e, inl refl, m),
        λ (before, u, v, e, free, m). f.1 (before, u, v, e, m),
      )
  | inl head ↦
      let f = matchhere-Starts re text in
      rw head (
        λ h. let (u, v, e, m) = f.0 h in ([], u, v, e, inr refl, m),
        λ (before, u, v, e, free, m).
            f.1 (u, v, e ∙ ap (λ l. l ++ (u ++ v)) (no_before before free), m),
      )
]
