-- ===== src/Shell/Ends.antt =====
-- user/sh.c: its loops over redirections and words end.
use proj.Common.{
  ℕ, zero, suc, ◌+◌, ◌≤◌, ◌<◌, ◌≡◌, refl, Bool, true, false, not, List, [], ◌∷◌, ◌++◌, length,
  arith, ◌==◌, if◌then◌else◌, ltb, Run, ok, panic, ◌>>=◌, ◌>>◌, panic_if,
}
use proj.Shell.Lexer.{enders, angles, Text, Token, gettoken, peek}
use proj.Shell.{maxargs, Redir, read_redir, parseredirs, add_word, exec_loop}
use proj.Shell.Tokens.{skip-le, gettoken-le, ret-lt, peek-lt}

-- The code does not run out of fuel, and what it leaves is no longer than `n`.
pub data Ends {ℓ} {A : Type ℓ} (n : ℕ) : Run (A × Text) → Type ℓ where
  returns : (p : A × Text) → length p.1 ≤ n → Ends n (ok p)
  panics : Ends n panic

module _ {ℓ} {A : Type ℓ} where
  pub Ends-le : {n : ℕ} {r : Run (A × Text)} (m : ℕ) → Ends n r → n ≤ m → Ends m r
  Ends-le m (returns p l) h = returns p (omega arith)
  Ends-le m panics h = panics

  pub Ends-bind {κ} :
      {B : Type κ} {n m : ℕ} {r : Run (B × Text)} {k : B × Text → Run (A × Text)}
      → Ends n r
      → ((p : B × Text) → length p.1 ≤ n → Ends m (k p))
      → Ends m (r >>= k)
  Ends-bind (returns p l) h = h p l
  Ends-bind panics h = panics

  pub Ends-panic_if :
      {n : ℕ} {r : Run (A × Text)} (b : Bool) → (b ≡ false → Ends n r) → Ends n (panic_if b >> r)
  Ends-panic_if true e = panics
  Ends-panic_if false e = e refl

  pub Ends-if :
      {n : ℕ} {r q : Run (A × Text)} (b : Bool)
      → (b ≡ true → Ends n r)
      → (b ≡ false → Ends n q)
      → Ends n (if b then r else q)
  Ends-if true f g = f refl
  Ends-if false f g = g refl

pub not-false : (b : Bool) → not b ≡ false → b ≡ true
not-false true e = refl
not-false false e = cc

pub peek-le : (toks s : Text) → length (peek toks s).1 ≤ length s
unfolding peek
peek-le toks s = skip-le s

read_redir-Ends : (s : Text) → Ends (length (gettoken s).rest) (read_redir s)
unfolding read_redir
read_redir-Ends s =
    Ends-if ((gettoken (gettoken s).rest).ret == b'a')
      (λ e. returns _ (gettoken-le (gettoken s).rest)) (λ e. panics)

pub redirs-Ends :
    (fuel : ℕ) (rs : List Redir) (s : Text)
    → length s < fuel
    → Ends (length s) (parseredirs fuel rs s)
unfolding parseredirs
redirs-Ends zero rs s h = absurd (omega arith)
redirs-Ends (suc fuel) rs s h =
    Ends-if (peek angles s).0
      (λ e.
        let shorter = peek-lt angles s e in
        Ends-bind (read_redir-Ends (peek angles s).1) (λ p l.
          Ends-le (length s) (redirs-Ends fuel (rs ++ (p.0 ∷ [])) p.1 (omega arith)) (omega arith)))
      (λ e. returns (rs, (peek angles s).1) (peek-le angles s))

add_word-Ends :
    (fuel : ℕ) (args : List Text) (rs : List Redir) (t : Token)
    → length t.rest < fuel
    → Ends (length t.rest) (add_word fuel args rs t)
unfolding add_word
add_word-Ends fuel args rs t h =
    Ends-if (t.ret == b'a')
      (λ e.
        Ends-panic_if (not (ltb (length args + 1) maxargs))
          (λ f. Ends-bind (redirs-Ends fuel rs t.rest h) (λ p l. returns _ l)))
      (λ e. panics)

pub exec_loop-Ends :
    (fuel : ℕ) (args : List Text) (rs : List Redir) (s : Text)
    → length s < fuel
    → Ends (length s) (exec_loop fuel args rs s)
unfolding exec_loop
exec_loop-Ends zero args rs s h = absurd (omega arith)
exec_loop-Ends (suc fuel) args rs s h =
    let s' = (peek enders s).1 in
    let now = peek-le enders s in
    Ends-if (peek enders s).0 (λ e. returns _ now)
      (λ e.
        Ends-if ((gettoken s').ret == 0) (λ z. returns _ (omega (arith, gettoken-le s')))
          (λ z.
            let shorter = ret-lt s' z in
            Ends-bind (add_word-Ends (suc fuel) args rs (gettoken s') (omega arith)) (λ p l.
              Ends-le (length s) (exec_loop-Ends fuel p.0.0 p.0.1 p.1 (omega arith))
                (omega arith))))
