-- ===== src/Shell/Rounds.antt =====
-- user/sh.c: what the parser's tests see of printed lines, and the loop over `&`.
use proj.Common.{
  ℕ, zero, suc, ◌+◌, ◌≤◌, ◌<◌, ◌≡◌, refl, true, false, ◌||◌, List, [], ◌∷◌, length, arith, All, ok,
}
use proj.Shell.Lexer.{
  Text, one_of, skip_space, gettoken, peek, left_paren, bar, ampersand, semicolon, enders,
}
use proj.Shell.{skip_token, Cmd, back, back_loop}
use proj.Shell.Tokens.{skip-skip}
use proj.Shell.Grammar.{
  input, output, append, Arrow, Argument, print_arrows, print_words, Line, last, then_line,
  Pipeline, one, into, Part, words, block, ampersands, print_line, print_pipe, print_part, backs,
  IsWord, AreArrows,
}
use proj.Shell.Words.{peek-skip, peek-rest}
use proj.Shell.Arguments.{peek-word, Follows, print_arrows-ge, print_words-ge}

pub ampersands-ge : (n : ℕ) (rest : Text) → length rest + n ≤ length (ampersands n rest)
ampersands-ge zero rest = omega arith
ampersands-ge (suc n) rest = omega (arith, ampersands-ge n rest)

mutual
  pub print_line-ge : (l : Line) (rest : Text) → length rest ≤ length (print_line l rest)
  print_line-ge (last p n) rest =
      omega (arith, print_pipe-ge p (ampersands n rest), ampersands-ge n rest)
  print_line-ge (then_line p n l) rest =
      let after = b';' ∷ print_line l rest in
      omega
        (arith, print_pipe-ge p (ampersands n after), ampersands-ge n after, print_line-ge l rest)

  pub print_pipe-ge : (p : Pipeline) (rest : Text) → length rest ≤ length (print_pipe p rest)
  print_pipe-ge (one e) rest = print_part-ge e rest
  print_pipe-ge (into e p) rest =
      omega (arith, print_part-ge e (b'|' ∷ print_pipe p rest), print_pipe-ge p rest)

  pub print_part-ge : (e : Part) (rest : Text) → length rest ≤ length (print_part e rest)
  print_part-ge (words rs ws) rest =
      omega (arith, print_arrows-ge rs (print_words ws rest), print_words-ge ws rest)
  print_part-ge (block l rs) rest =
      omega (arith, print_line-ge l (b')' ∷ print_arrows rs rest), print_arrows-ge rs rest)

pub left_paren-words :
    (l : List Arrow) (ws : List Argument) (rest : Text)
    → All (λ a. IsWord a.0 × AreArrows a.1) ws
    → Follows rest
    → (peek left_paren (print_arrows l (print_words ws rest))).0 ≡ false
unfolding peek skip_space
left_paren-words [] [] [] h f = refl
left_paren-words [] [] (c ∷ s) h f = ground arith
left_paren-words [] ((w, l) ∷ ws) rest h f =
    peek-word left_paren w (print_arrows l (print_words ws rest)) h.0.0 (λ c k. ground arith)
left_paren-words ((input, w) ∷ l) ws rest h f = refl
left_paren-words ((output, w) ∷ l) ws rest h f = refl
left_paren-words ((append, w) ∷ l) ws rest h f = refl

-- A symbol is seen and passed.
pub peek-symbol :
    (c : ℕ) (s rest : Text)
    → one_of enders c || one_of left_paren c ≡ true
    → skip_space s ≡ skip_space (c ∷ rest)
    → (peek (c ∷ []) s).0 ≡ true
unfolding peek skip_space
peek-symbol c s rest h e = rw e (ground arith)

pub skip_token-symbol :
    (c : ℕ) (rest : Text)
    → one_of enders c || one_of left_paren c ≡ true
    → skip_token (skip_space (c ∷ rest)) ≡ skip_space rest
unfolding gettoken skip_space
skip_token-symbol c rest h = ground (arith, skip-skip rest)

-- What follows a pipe, and what follows a line.
abbrev pub AfterPipe : Text → Type 0
AfterPipe [] = Unit
AfterPipe (c ∷ s) = one_of (b'&' ∷ (b';' ∷ (b')' ∷ []))) c ≡ true

abbrev pub AfterLine : Text → Type 0
AfterLine [] = Unit
AfterLine (c ∷ s) = c ≡ b')'

pub AfterPipe-Follows : (s : Text) → AfterPipe s → Follows s
AfterPipe-Follows [] h = tt
AfterPipe-Follows (c ∷ s) h = ground arith

pub bar-AfterPipe : (s : Text) → AfterPipe s → (peek bar s).0 ≡ false
unfolding peek skip_space
bar-AfterPipe [] h = refl
bar-AfterPipe (c ∷ s) h = ground arith

pub semicolon-AfterLine : (s : Text) → AfterLine s → (peek semicolon s).0 ≡ false
unfolding peek skip_space
semicolon-AfterLine [] h = refl
semicolon-AfterLine (c ∷ s) h = ground arith

pub ampersand-AfterLine : (s : Text) → AfterLine s → (peek ampersand s).0 ≡ false
unfolding peek skip_space
ampersand-AfterLine [] h = refl
ampersand-AfterLine (c ∷ s) h = ground arith

pub ampersand-semicolon : (s : Text) → (peek ampersand (b';' ∷ s)).0 ≡ false
unfolding peek skip_space
ampersand-semicolon s = refl

pub AfterLine-AfterPipe : (s : Text) → AfterLine s → AfterPipe s
AfterLine-AfterPipe [] h = tt
AfterLine-AfterPipe (c ∷ s) h = ground arith

pub AfterPipe-ampersands : (n : ℕ) (s : Text) → AfterPipe s → AfterPipe (ampersands n s)
AfterPipe-ampersands zero s h = h
AfterPipe-ampersands (suc n) s h = refl

-- The ampersands of a line are read, and no more where none follows.
pub back_loop-ampersands :
    (fuel : ℕ) (c : Cmd) (s : Text) (n : ℕ) (rest : Text)
    → skip_space s ≡ skip_space (ampersands n rest)
    → (peek ampersand rest).0 ≡ false
    → n < fuel
    → back_loop fuel c s ≡ ok (backs n c, skip_space rest)
unfolding back_loop
back_loop-ampersands zero c s n rest e no_more f = absurd (omega arith)
back_loop-ampersands (suc fuel) c s zero rest e no_more f =
    rw (peek-skip ampersand s rest e, no_more, peek-rest ampersand rest)
back_loop-ampersands (suc fuel) c s (suc n) rest e no_more f =
    let t = ampersands n rest in
    rw (
      peek-symbol b'&' s t refl e,
      peek-rest ampersand s,
      e,
      skip_token-symbol b'&' t refl,
      back_loop-ampersands fuel (back c) (skip_space t) n rest (skip-skip t) no_more (omega arith),
    )
