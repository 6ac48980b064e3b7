-- ===== src/Grep/Regex.antt =====
-- user/grep.c: what an expression means, and that `matchhere` decides it.
use proj.Common.{
  ℕ, ◌≡◌, ◌↔◌, refl, sym, ap, ◌∙◌, fun_ext, Bool, true, ◌||◌, List, [], ◌∷◌, ◌++◌, All, arith, ◌==◌,
  if◌then◌else◌, Bool-cases, inl, inr, append_assoc,
}
use proj.Grep.{dot, asterisk, dollar, ended, matchstar, matchone, matchhere}

-- An expression: it ends anywhere, or at the end of the text, or goes on after one character or any
-- number of them.
pub data Regex : Type 0 where
  anything : Regex
  end : Regex
  one : ℕ → Regex → Regex
  star : ℕ → Regex → Regex

unfoldable pub parse : List ℕ → Regex
parse [] = anything
parse (c ∷ []) = if c == dollar then end else one c anything
parse (c ∷ (d ∷ re)) = if d == asterisk then star c (parse re) else one c (parse (d ∷ re))

-- A dot stands for every character.
abbrev pub Fits : ℕ → ℕ → Type 0
Fits c x = ((c == dot) || (c == x)) ≡ true

-- The expression matches `u` where `v` comes after it.
abbrev pub Matches : Regex → List ℕ → List ℕ → Type 0
Matches anything u v = u ≡ []
Matches end u v = (u ≡ []) × (v ≡ [])
Matches (one c r) u v = (x : ℕ) × (w : List ℕ) × (u ≡ x ∷ w) × Fits c x × Matches r w v
Matches (star c r) u v =
    (xs : List ℕ) × (w : List ℕ) × (u ≡ xs ++ w) × All (Fits c) xs × Matches r w v

abbrev pub Starts : Regex → List ℕ → Type 0
Starts r text = (u : List ℕ) × (v : List ℕ) × (text ≡ u ++ v) × Matches r u v

-- `matchhere` on a parsed expression.
unfoldable run : Regex → List ℕ → Bool
run anything text = true
run end text = ended text
run (one c r) text = matchone (run r) c text
run (star c r) text = matchstar (run r) c text

matchhere-parse : (re : List ℕ) → matchhere re ≡ run (parse re)
unfolding matchhere parse run
matchhere-parse [] = refl
matchhere-parse (c ∷ []) = fun_ext (λ text. elim (Bool-cases (c == dollar)) [
  | inl e ↦ rw e refl
  | inr e ↦ rw (e, matchhere-parse []) refl
])
matchhere-parse (c ∷ (d ∷ re)) = fun_ext (λ text. elim (Bool-cases (d == asterisk)) [
  | inl e ↦ rw (e, matchhere-parse re) refl
  | inr e ↦ rw (e, matchhere-parse (d ∷ re)) refl
])

matchstar-split :
    (here : List ℕ → Bool) (c : ℕ) (text : List ℕ)
    → matchstar here c text ≡ true
    → (xs : List ℕ) × (ys : List ℕ) × (text ≡ xs ++ ys) × All (Fits c) xs × (here ys ≡ true)
unfolding matchstar
matchstar-split here c [] h = ([], [], refl, tt, h)
matchstar-split here c (x ∷ text) h = elim (Bool-cases (here (x ∷ text))) [
  | inl now ↦ ([], x ∷ text, refl, tt, now)
  | inr later ↦
      let rest : matchstar here c text ≡ true = ground arith in
      let (xs, ys, e, fits, h') = matchstar-split here c text rest in
      (x ∷ xs, ys, ap (λ l. x ∷ l) e, (ground arith, fits), h')
]

matchstar-append :
    (here : List ℕ → Bool) (c : ℕ) (xs ys : List ℕ)
    → All (Fits c) xs
    → here ys ≡ true
    → matchstar here c (xs ++ ys) ≡ true
unfolding matchstar
matchstar-append here c [] [] fits h = h
matchstar-append here c [] (y ∷ ys) fits h = rw h refl
matchstar-append here c (x ∷ xs) ys fits h =
    let rest = matchstar-append here c xs ys fits.1 h in ground (arith, fits.0)

run-Starts : (r : Regex) (text : List ℕ) → run r text ≡ true → Starts r text
unfolding run matchone
run-Starts anything text h = ([], text, refl, refl)
run-Starts end [] h = ([], [], refl, (refl, refl))
run-Starts end (x ∷ text) h = cc
run-Starts (one c r) [] h = cc
run-Starts (one c r) (x ∷ text) h =
    let (u, v, e, m) = run-Starts r text (ground arith) in
    (x ∷ u, v, ap (λ l. x ∷ l) e, (x, u, refl, ground arith, m))
run-Starts (star c r) text h =
    let (xs, ys, e, fits, h') = matchstar-split (run r) c text h in
    let (u, v, e', m) = run-Starts r ys h' in
    (xs ++ u, v, e ∙ ap (λ l. xs ++ l) e' ∙ sym (append_assoc xs u v), (xs, u, refl, fits, m))

Matches-run : (r : Regex) (u v : List ℕ) → Matches r u v → run r (u ++ v) ≡ true
unfolding run matchone
Matches-run anything u v m = refl
Matches-run end u v (e, e') = rw (e, e') refl
Matches-run (one c r) u v (x, w, e, fits, m) = rw (e, fits) (Matches-run r w v m)
Matches-run (star c r) u v (xs, w, e, fits, m) =
    rw (e, append_assoc xs w v) (matchstar-append (run r) c xs (w ++ v) fits (Matches-run r w v m))

-- `matchhere` holds exactly where the text starts with a text that the expression matches.
pub matchhere-Starts : (re text : List ℕ) → (matchhere re text ≡ true) ↔ Starts (parse re) text
matchhere-Starts re text =
    rw (matchhere-parse re)
      (run-Starts (parse re) text, λ (u, v, e, m). rw e (Matches-run (parse re) u v m))
