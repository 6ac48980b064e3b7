-- ===== src/Shell/Words.antt =====
-- user/sh.c: `gettoken` and the loops over redirections and words read what was printed.
use proj.Common.{
  ℕ, zero, suc, ◌<◌, ◌≡◌, refl, true, false, List, [], ◌∷◌, ◌++◌, length, append_assoc, append-nil,
  arith, All, ok, map,
}
use proj.Shell.Lexer.{Text, is_word, skip_space, take_word, switch, gettoken, peek, angles}
use proj.Shell.{Redir, read_redir, redirection, parseredirs}
use proj.Shell.Tokens.{skip-skip}
use proj.Shell.Grammar.{
  Direction, input, output, append, Arrow, print_word, print_arrow, print_arrows, target, IsWord,
  AreArrows,
}

-- What ends a word.
abbrev pub EndsWord : Text → Type 0
EndsWord [] = Unit
EndsWord (c ∷ s) = is_word c ≡ false

take_word-append :
    (w rest : Text)
    → All (λ x. is_word x ≡ true) w
    → EndsWord rest
    → take_word (w ++ rest) ≡ (w, rest)
unfolding take_word
take_word-append [] [] h e = refl
take_word-append [] (c ∷ s) h e = rw e
take_word-append (c ∷ w) rest h e = rw (take_word-append w rest h.1 e, h.0)

switch-word :
    (c : ℕ) (s : Text)
    → is_word c ≡ true
    → switch (c ∷ s)
      ≡ record { ret = b'a'; word = (take_word (c ∷ s)).0; rest = (take_word (c ∷ s)).1 }
switch-word c s h = ground arith

pub skip-word : (w rest : Text) → IsWord w → skip_space (print_word w rest) ≡ w ++ rest
unfolding skip_space
skip-word [] rest h = absurd h
skip-word (c ∷ w) rest h = ground arith

-- A printed word is one token.
pub gettoken-word :
    (s w rest : Text)
    → skip_space s ≡ skip_space (print_word w rest)
    → IsWord w
    → EndsWord rest
    → gettoken s ≡ record { ret = b'a'; word = w; rest = skip_space rest }
unfolding gettoken
gettoken-word s [] rest e h n = absurd h
gettoken-word s (c ∷ w) rest e h n =
    rw (
      e,
      skip-word (c ∷ w) rest h,
      switch-word c (w ++ rest) h.0,
      take_word-append (c ∷ w) rest h n,
    )

gettoken-skip : (s r : Text) → skip_space s ≡ skip_space r → gettoken s ≡ gettoken r
unfolding gettoken
gettoken-skip s r e = rw e

pub peek-skip : (toks s r : Text) → skip_space s ≡ skip_space r → peek toks s ≡ peek toks r
unfolding peek
peek-skip toks s r e = rw e

sign : Direction → ℕ
sign input = b'<'
sign output = b'>'
sign append = b'+'

gettoken-arrow :
    (a : Arrow) (rest : Text)
    → ((gettoken (print_arrow a rest)).ret ≡ sign a.0)
      × ((gettoken (print_arrow a rest)).rest ≡ skip_space (print_word a.1 rest))
unfolding gettoken sign
gettoken-arrow (input, w) rest = (refl, refl)
gettoken-arrow (output, w) rest = (refl, refl)
gettoken-arrow (append, w) rest = (refl, refl)

redirection-sign : (a : Arrow) → redirection (sign a.0) a.1 ≡ target a
unfolding redirection sign
redirection-sign (input, w) = refl
redirection-sign (output, w) = refl
redirection-sign (append, w) = refl

peek-arrow : (a : Arrow) (rest : Text) → (peek angles (print_arrow a rest)).0 ≡ true
unfolding peek skip_space
peek-arrow (input, w) rest = refl
peek-arrow (output, w) rest = refl
peek-arrow (append, w) rest = refl

pub peek-rest : (toks s : Text) → (peek toks s).1 ≡ skip_space s
unfolding peek
peek-rest toks s = refl

-- A round of the loop of `parseredirs` reads a printed redirection.
read_redir-arrow :
    (s : Text) (a : Arrow) (rest : Text)
    → skip_space s ≡ skip_space (print_arrow a rest)
    → IsWord a.1
    → EndsWord rest
    → read_redir s ≡ ok (target a, skip_space rest)
unfolding read_redir
read_redir-arrow s a rest e h n =
    let shown = gettoken-arrow a rest in
    let file = gettoken-word (skip_space (print_word a.1 rest)) a.1 rest (skip-skip _) h n in
    rw (gettoken-skip s (print_arrow a rest) e, shown.0, shown.1, file, redirection-sign a)

pub EndsWord-arrows :
    (l : List Arrow) (rest : Text) → EndsWord rest → EndsWord (print_arrows l rest)
EndsWord-arrows [] rest e = e
EndsWord-arrows ((input, w) ∷ l) rest e = refl
EndsWord-arrows ((output, w) ∷ l) rest e = refl
EndsWord-arrows ((append, w) ∷ l) rest e = refl

-- `parseredirs` reads the printed redirections, and no further.
pub parseredirs-arrows :
    (fuel : ℕ) (rs : List Redir) (s : Text) (l : List Arrow) (rest : Text)
    → skip_space s ≡ skip_space (print_arrows l rest)
    → AreArrows l
    → EndsWord rest
    → (peek angles rest).0 ≡ false
    → length l < fuel
    → parseredirs fuel rs s ≡ ok (rs ++ map target l, skip_space rest)
unfolding parseredirs
parseredirs-arrows zero rs s l rest e h n p f = absurd (omega arith)
parseredirs-arrows (suc fuel) rs s [] rest e h n p f =
    rw (peek-skip angles s rest e, p, peek-rest angles rest, append-nil)
parseredirs-arrows (suc fuel) rs s (a ∷ l) rest e h n p f =
    let after = print_arrows l rest in
    rw (
      peek-skip angles s (print_arrow a after) e,
      peek-arrow a after,
      peek-rest angles (print_arrow a after),
      read_redir-arrow (skip_space (print_arrow a after)) a after (skip-skip _) h.0
          (EndsWord-arrows l rest n),
      parseredirs-arrows fuel (rs ++ (target a ∷ [])) (skip_space after) l rest (skip-skip after)
          h.1 n p (omega arith),
      append_assoc,
    )
