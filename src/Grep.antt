-- ===== src/Grep.antt =====
-- user/grep.c: the matcher of regular expressions. A string is its bytes before the NUL.
pub mod Regex
pub mod Search
use proj.Common.{ℕ, Bool, true, false, ◌&&◌, ◌||◌, List, [], ◌∷◌, ◌==◌, if◌then◌else◌}

-- `'^'`
abbrev pub caret : ℕ
caret = 94

-- `'.'`
abbrev pub dot : ℕ
dot = 46

-- `'*'`
abbrev pub asterisk : ℕ
asterisk = 42

-- `'$'`
abbrev pub dollar : ℕ
dollar = 36

-- `*text == '\0'`
abbrev pub ended : List ℕ → Bool
ended [] = true
ended (x ∷ xs) = false

-- `matchstar`, with `matchhere` on the expression after the star as `here`.
unfoldable pub matchstar : (List ℕ → Bool) → ℕ → List ℕ → Bool
matchstar here c [] = here []
matchstar here c (x ∷ xs) = here (x ∷ xs) || (((x == c) || (c == dot)) && matchstar here c xs)

-- The last test of `matchhere`, with `matchhere` on the rest of the expression as `here`.
unfoldable pub matchone : (List ℕ → Bool) → ℕ → List ℕ → Bool
matchone here c [] = false
matchone here c (x ∷ xs) = ((c == dot) || (c == x)) && here xs

unfoldable pub matchhere : List ℕ → List ℕ → Bool
unfolding matchstar matchone
matchhere [] text = true
matchhere (c ∷ []) text = if c == dollar then ended text else matchone (matchhere []) c text
matchhere (c ∷ (d ∷ re)) text =
    if d == asterisk then matchstar (matchhere re) c text else matchone (matchhere (d ∷ re)) c text

-- The loop of `match`.
unfoldable pub match_from : List ℕ → List ℕ → Bool
unfolding matchhere
match_from re [] = matchhere re []
match_from re (x ∷ xs) = matchhere re (x ∷ xs) || match_from re xs

unfoldable pub match : List ℕ → List ℕ → Bool
unfolding matchhere match_from
match [] text = match_from [] text
match (c ∷ re) text = if c == caret then matchhere re text else match_from (c ∷ re) text
