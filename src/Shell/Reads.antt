-- ===== src/Shell/Reads.antt =====
-- user/sh.c: the parser reads back the lines that are printed.
use proj.Common.{ℕ, zero, suc, ◌≤◌, ◌<◌, ◌≡◌, refl, List, [], ◌∷◌, length, arith, ok, map}
use proj.Shell.Lexer.{Text, skip_space, peek, left_paren, right_paren, bar, semicolon}
use proj.Shell.{parseblock, parsewords, parseexec, parsepipe, parseline, parsecmd}
use proj.Shell.Tokens.{skip-skip}
use proj.Shell.Grammar.{
  Arrow, Argument, print_arrows, print_words, Line, last, then_line, Pipeline, one, into, Part,
  words, block, ampersands, print_line, print_pipe, print_part, target, line_of, pipe_of, part_of,
  IsLine, IsPipe, IsPart,
}
use proj.Shell.Words.{peek-skip, peek-rest, parseredirs-arrows}
use proj.Shell.Arguments.{
  Follows, Follows-EndsWord, angles-Follows, print_arrows-ge, exec_loop-words, EndsWord-words,
  angles-words,
}
use proj.Shell.Rounds.{
  ampersands-ge, print_line-ge, print_pipe-ge, print_part-ge, left_paren-words, peek-symbol,
  skip_token-symbol, AfterPipe-Follows, bar-AfterPipe, semicolon-AfterLine, ampersand-AfterLine,
  ampersand-semicolon, AfterLine-AfterPipe, AfterPipe-ampersands, back_loop-ampersands, AfterPipe,
  AfterLine,
}

parsewords-words :
    (fuel : ℕ) (s : Text) (l : List Arrow) (ws : List Argument) (rest : Text)
    → skip_space s ≡ skip_space (print_arrows l (print_words ws rest))
    → IsPart (words l ws)
    → Follows rest
    → length (print_arrows l (print_words ws rest)) < fuel
    → parsewords fuel s ≡ ok (part_of (words l ws), skip_space rest)
unfolding parsewords
parsewords-words fuel s l ws rest e h n f =
    let after = print_words ws rest in
    let k = print_arrows-ge l after in
    let stop = Follows-EndsWord rest n in
    let no_arrow = angles-words ws rest h.1 (angles-Follows rest n) in
    rw (
      parseredirs-arrows fuel [] s l after e h.0 (EndsWord-words ws rest stop) no_arrow
          (omega arith),
      exec_loop-words fuel [] (map target l) (skip_space after) ws rest (skip-skip after) h.1
          (omega arith) n (omega arith),
    )

mutual
  unfolding parseline parsepipe parseexec parseblock

  parseline-Reads :
      (l : Line) (fuel : ℕ) (s rest : Text)
      → IsLine l
      → skip_space s ≡ skip_space (print_line l rest)
      → AfterLine rest
      → length (print_line l rest) < fuel
      → parseline fuel s ≡ ok (line_of l, skip_space rest)
  parseline-Reads (last p n) zero s rest h e a f = absurd (omega arith)
  parseline-Reads (then_line p n l) zero s rest h e a f = absurd (omega arith)
  parseline-Reads (last p n) (suc fuel) s rest h e a f =
      let t = ampersands n rest in
      let k = print_pipe-ge p t in
      rw (
        parsepipe-Reads p fuel (suc fuel) s t h e
            (AfterPipe-ampersands n rest (AfterLine-AfterPipe rest a)) (omega arith) f,
        back_loop-ampersands (suc fuel) (pipe_of p) (skip_space t) n rest (skip-skip t)
            (ampersand-AfterLine rest a) (omega (arith, ampersands-ge n rest)),
        peek-skip semicolon (skip_space rest) rest (skip-skip rest),
        semicolon-AfterLine rest a,
        peek-rest semicolon rest,
      )
  parseline-Reads (then_line p n l) (suc fuel) s rest h e a f =
      let next = b';' ∷ print_line l rest in
      let t = ampersands n next in
      let k = print_pipe-ge p t in
      let j = ampersands-ge n next in
      rw (
        parsepipe-Reads p fuel (suc fuel) s t h.0 e (AfterPipe-ampersands n next refl) (omega arith)
            f,
        back_loop-ampersands (suc fuel) (pipe_of p) (skip_space t) n next (skip-skip t)
            (ampersand-semicolon (print_line l rest)) (omega arith),
        peek-symbol b';' (skip_space next) (print_line l rest) refl (skip-skip next),
        peek-rest semicolon (skip_space next),
        skip-skip next,
        skip_token-symbol b';' (print_line l rest) refl,
        parseline-Reads l fuel (skip_space (print_line l rest)) rest h.1 (skip-skip _) a
            (omega arith),
      )

  -- `f` is the fuel of the lines within, and `fuel` that of the pipe.
  parsepipe-Reads :
      (p : Pipeline) (f fuel : ℕ) (s rest : Text)
      → IsPipe p
      → skip_space s ≡ skip_space (print_pipe p rest)
      → AfterPipe rest
      → length (print_pipe p rest) ≤ f
      → length (print_pipe p rest) < fuel
      → parsepipe (parseline f) fuel s ≡ ok (pipe_of p, skip_space rest)
  parsepipe-Reads (one x) f zero s rest h e a m n = absurd (omega arith)
  parsepipe-Reads (into x p) f zero s rest h e a m n = absurd (omega arith)
  parsepipe-Reads (one x) f (suc fuel) s rest h e a m n = rw (
    parseexec-Reads x f (suc fuel) s rest h e (AfterPipe-Follows rest a) m n,
    peek-skip bar (skip_space rest) rest (skip-skip rest),
    bar-AfterPipe rest a,
    peek-rest bar rest,
  )
  parsepipe-Reads (into x p) f (suc fuel) s rest h e a m n =
      let next = b'|' ∷ print_pipe p rest in
      let k = print_part-ge x next in
      rw (
        parseexec-Reads x f (suc fuel) s next h.0 e refl m n,
        peek-symbol b'|' (skip_space next) (print_pipe p rest) refl (skip-skip next),
        peek-rest bar (skip_space next),
        skip-skip next,
        skip_token-symbol b'|' (print_pipe p rest) refl,
        parsepipe-Reads p f fuel (skip_space (print_pipe p rest)) rest h.1 (skip-skip _) a
            (omega arith) (omega arith),
      )

  parseexec-Reads :
      (x : Part) (f fuel : ℕ) (s rest : Text)
      → IsPart x
      → skip_space s ≡ skip_space (print_part x rest)
      → Follows rest
      → length (print_part x rest) ≤ f
      → length (print_part x rest) < fuel
      → parseexec (parseline f) fuel s ≡ ok (part_of x, skip_space rest)
  parseexec-Reads (words l ws) f fuel s rest h e a m n =
      let t = print_arrows l (print_words ws rest) in
      rw (
        peek-skip left_paren s t e,
        left_paren-words l ws rest h.1 a,
        peek-rest left_paren t,
        parsewords-words fuel (skip_space t) l ws rest (skip-skip t) h a n,
      )
  parseexec-Reads (block l rs) f fuel s rest h e a m n =
      let inner = print_line l (b')' ∷ print_arrows rs rest) in
      let t = b'(' ∷ inner in
      let after = b')' ∷ print_arrows rs rest in
      let k = print_line-ge l after in
      let j = print_arrows-ge rs rest in
      rw (
        peek-symbol b'(' s inner refl e,
        peek-rest left_paren s,
        e,
        peek-symbol b'(' (skip_space t) inner refl (skip-skip t),
        peek-rest left_paren (skip_space t),
        skip-skip t,
        skip_token-symbol b'(' inner refl,
        parseline-Reads l f (skip_space inner) after h.0 (skip-skip inner) refl (omega arith),
        peek-symbol b')' (skip_space after) (print_arrows rs rest) refl (skip-skip after),
        peek-rest right_paren (skip_space after),
        skip-skip after,
        skip_token-symbol b')' (print_arrows rs rest) refl,
        parseredirs-arrows fuel [] (skip_space (print_arrows rs rest)) rs rest (skip-skip _) h.1
            (Follows-EndsWord rest a) (angles-Follows rest a) (omega arith),
      )

-- A line that is printed, with words that are words for the shell and fewer than ten in a command,
-- is parsed as the command that it denotes.
pub parsecmd-print : (l : Line) → IsLine l → parsecmd (print_line l []) ≡ ok (line_of l)
unfolding parsecmd
parsecmd-print l h =
    rw
      (parseline-Reads l (suc (length (print_line l []))) (print_line l []) [] h refl tt
        (omega arith))
      (unfold peek skip_space in refl)
