-- ===== src/Shell/Total.antt =====
-- user/sh.c: the parser comes to an end on every text.
use proj.Common.{
  ℕ, zero, suc, ◌<◌, ◌≢◌, Bool, true, false, not, [], length, arith, ◌==◌, Run, ok, blocked, ◌>>=◌,
  ◌>>◌, panic_if,
}
use proj.Shell.Lexer.{left_paren, right_paren, bar, ampersand, semicolon, Text, peek}
use proj.Shell.{
  skip_token, Cmd, parseblock, parsewords, parseexec, parsepipe, back_loop, parseline, parsecmd,
  back,
}
use proj.Shell.Ends.{
  Ends, returns, panics, Ends-le, Ends-bind, Ends-panic_if, Ends-if, not-false, peek-le,
  redirs-Ends, exec_loop-Ends,
}
use proj.Shell.Tokens.{peek-lt}

-- A parser that ends on every text shorter than `n`.
abbrev Below : (Text → Run (Cmd × Text)) → ℕ → Type 0
Below line n = (t : Text) → length t < n → Ends (length t) (line t)

parseblock-Ends :
    (line : Text → Run (Cmd × Text)) (fuel : ℕ) (s : Text)
    → Below line (length s)
    → length s < fuel
    → Ends (length s) (parseblock line fuel s)
unfolding parseblock
parseblock-Ends line fuel s below h = Ends-panic_if (not (peek left_paren s).0) (λ e.
    let shorter = peek-lt left_paren s (not-false _ e) in
    Ends-bind (below (skip_token (peek left_paren s).1) (omega arith)) (λ p l.
      Ends-panic_if (not (peek right_paren p.1).0) (λ f.
        let shorter' = peek-lt right_paren p.1 (not-false _ f) in
        let s' = skip_token (peek right_paren p.1).1 in
        Ends-bind (redirs-Ends fuel [] s' (omega arith)) (λ q m. returns _ (omega arith)))))

parsewords-Ends : (fuel : ℕ) (s : Text) → length s < fuel → Ends (length s) (parsewords fuel s)
unfolding parsewords
parsewords-Ends fuel s h = Ends-bind (redirs-Ends fuel [] s h) (λ p l.
    Ends-bind (exec_loop-Ends fuel [] p.0 p.1 (omega arith)) (λ q m. returns _ (omega arith)))

parseexec-Ends :
    (line : Text → Run (Cmd × Text)) (fuel : ℕ) (s : Text)
    → Below line (length s)
    → length s < fuel
    → Ends (length s) (parseexec line fuel s)
unfolding parseexec
parseexec-Ends line fuel s below h =
    let s' = (peek left_paren s).1 in
    let now = peek-le left_paren s in
    Ends-if (peek left_paren s).0
      (λ e.
        Ends-le (length s)
          (parseblock-Ends line fuel s' (λ t l. below t (omega arith)) (omega arith)) now)
      (λ e. Ends-le (length s) (parsewords-Ends fuel s' (omega arith)) now)

parsepipe-Ends :
    (line : Text → Run (Cmd × Text)) (fuel : ℕ) (s : Text)
    → Below line (length s)
    → length s < fuel
    → Ends (length s) (parsepipe line fuel s)
unfolding parsepipe
parsepipe-Ends line zero s below h = absurd (omega arith)
parsepipe-Ends line (suc fuel) s below h =
    Ends-bind (parseexec-Ends line (suc fuel) s below h) (λ p l.
      let s' = (peek bar p.1).1 in
      let now = peek-le bar p.1 in
      Ends-if (peek bar p.1).0
        (λ e.
          let shorter = peek-lt bar p.1 e in
          Ends-bind
            (parsepipe-Ends line fuel (skip_token s') (λ t k. below t (omega arith)) (omega arith))
            (λ q m. returns _ (omega arith)))
        (λ e. returns _ (omega arith)))

back_loop-Ends :
    (fuel : ℕ) (c : Cmd) (s : Text) → length s < fuel → Ends (length s) (back_loop fuel c s)
unfolding back_loop
back_loop-Ends zero c s h = absurd (omega arith)
back_loop-Ends (suc fuel) c s h =
    let s' = skip_token (peek ampersand s).1 in
    Ends-if (peek ampersand s).0
      (λ e.
        let shorter = peek-lt ampersand s e in
        Ends-le (length s) (back_loop-Ends fuel (back c) s' (omega arith)) (omega arith))
      (λ e. returns _ (peek-le ampersand s))

parseline-Ends : (fuel : ℕ) (s : Text) → length s < fuel → Ends (length s) (parseline fuel s)
unfolding parseline
parseline-Ends zero s h = absurd (omega arith)
parseline-Ends (suc fuel) s h =
    Ends-bind
      (parsepipe-Ends (parseline fuel) (suc fuel) s (λ t l. parseline-Ends fuel t (omega arith)) h)
      (λ p l. Ends-bind (back_loop-Ends (suc fuel) p.0 p.1 (omega arith)) (λ q m.
        let now = peek-le semicolon q.1 in
        Ends-if (peek semicolon q.1).0
          (λ e.
            let shorter = peek-lt semicolon q.1 e in
            Ends-bind (parseline-Ends fuel (skip_token (peek semicolon q.1).1) (omega arith))
              (λ r k. returns _ (omega arith)))
          (λ e. returns _ (omega arith))))

leftovers : (b : Bool) (c : Cmd) → (panic_if b >> ok c) ≢ blocked
leftovers true c = λ e. cc
leftovers false c = λ e. cc

leftovers-Ends :
    {n : ℕ} {r : Run (Cmd × Text)} (rest : Cmd × Text → Bool)
    → Ends n r
    → (r >>= λ p. panic_if (rest p) >> ok p.0) ≢ blocked
leftovers-Ends rest (returns p l) = leftovers (rest p) p.0
leftovers-Ends rest panics = λ e. cc

-- `parsecmd` comes to an end on every text: it returns a command or it panics.
pub parsecmd-ends : (s : Text) → parsecmd s ≢ blocked
unfolding parsecmd
parsecmd-ends s =
    leftovers-Ends (λ p. not (length (peek [] p.1).1 == 0))
      (parseline-Ends (suc (length s)) s (omega arith))
