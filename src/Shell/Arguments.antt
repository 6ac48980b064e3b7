-- ===== src/Shell/Arguments.antt =====
-- user/sh.c: the loop of `parseexec` reads the printed words.
use proj.Common.{
  ℕ, zero, suc, ◌+◌, ◌≤◌, ◌<◌, ◌≡◌, refl, ◌⊎◌, inl, inr, true, false, List, [], ◌∷◌, ◌++◌, length,
  append_assoc, append-nil, length-append, ltb, arith, All, ok, map,
}
use proj.Shell.Lexer.{Text, one_of, is_word, skip_space, gettoken, peek, angles, enders}
use proj.Shell.{maxargs, Redir, add_word, exec_loop}
use proj.Shell.Tokens.{skip-skip}
use proj.Shell.Grammar.{
  input, output, append, Arrow, Argument, print_word, print_arrow, print_arrows, print_words,
  target, arrows_of, IsWord, AreArrows,
}
use proj.Shell.Words.{
  EndsWord, skip-word, gettoken-word, peek-skip, peek-rest, EndsWord-arrows, parseredirs-arrows,
}

-- What follows a part of a pipe.
abbrev pub Follows : Text → Type 0
Follows [] = Unit
Follows (c ∷ s) = one_of enders c ≡ true

pub Follows-EndsWord : (s : Text) → Follows s → EndsWord s
Follows-EndsWord [] f = tt
Follows-EndsWord (c ∷ s) f = ground arith

pub angles-Follows : (s : Text) → Follows s → (peek angles s).0 ≡ false
unfolding peek skip_space
angles-Follows [] f = refl
angles-Follows (c ∷ s) f = ground arith

enders-Follows :
    (s : Text)
    → Follows s
    → ((peek enders s).0 ≡ true) ⊎ (((peek enders s).0 ≡ false) × (skip_space s ≡ []))
unfolding peek skip_space
enders-Follows [] f = inr (refl, refl)
enders-Follows (c ∷ s) f = inl (ground arith)

pub EndsWord-words :
    (ws : List Argument) (rest : Text) → EndsWord rest → EndsWord (print_words ws rest)
EndsWord-words [] rest e = e
EndsWord-words ((w, l) ∷ ws) rest e = refl

-- At a printed word `peek` sees the first byte of the word, and that is no symbol.
pub peek-word :
    (toks w rest : Text)
    → IsWord w
    → ((c : ℕ) → is_word c ≡ true → one_of toks c ≡ false)
    → (peek toks (print_word w rest)).0 ≡ false
unfolding peek
peek-word toks [] rest h no_symbol = absurd h
peek-word toks (c ∷ w) rest h no_symbol =
    rw (skip-word (c ∷ w) rest h, no_symbol c h.0) (ground arith)

pub angles-words :
    (ws : List Argument) (rest : Text)
    → All (λ a. IsWord a.0 × AreArrows a.1) ws
    → (peek angles rest).0 ≡ false
    → (peek angles (print_words ws rest)).0 ≡ false
angles-words [] rest h e = e
angles-words ((w, l) ∷ ws) rest h e =
    peek-word angles w (print_arrows l (print_words ws rest)) h.0.0 (λ c k. ground arith)

enders-word : (w rest : Text) → IsWord w → (peek enders (print_word w rest)).0 ≡ false
enders-word w rest h = peek-word enders w rest h (λ c k. ground arith)

print_arrow-pos : (a : Arrow) (rest : Text) → length rest + 1 ≤ length (print_arrow a rest)
print_arrow-pos (input, w) rest = omega (arith, length-append w rest)
print_arrow-pos (output, w) rest = omega (arith, length-append w rest)
print_arrow-pos (append, w) rest = omega (arith, length-append w rest)

pub print_arrows-ge :
    (l : List Arrow) (rest : Text) → length l + length rest ≤ length (print_arrows l rest)
print_arrows-ge [] rest = omega arith
print_arrows-ge (a ∷ l) rest =
    omega (arith, print_arrows-ge l rest, print_arrow-pos a (print_arrows l rest))

pub print_words-ge : (ws : List Argument) (rest : Text) → length rest ≤ length (print_words ws rest)
print_words-ge [] rest = omega arith
print_words-ge ((w, l) ∷ ws) rest = omega (
  arith,
  print_words-ge ws rest,
  print_arrows-ge l (print_words ws rest),
  length-append w (print_arrows l (print_words ws rest)),
)

add_word-word :
    (fuel : ℕ) (args : List Text) (rs : List Redir) (w : Text) (l : List Arrow) (after : Text)
    → length args + 1 < maxargs
    → AreArrows l
    → EndsWord after
    → (peek angles after).0 ≡ false
    → length l < fuel
    → add_word fuel args rs
        (record { ret = b'a'; word = w; rest = skip_space (print_arrows l after) })
      ≡ ok ((args ++ (w ∷ []), rs ++ map target l), skip_space after)
unfolding add_word
add_word-word fuel args rs w l after m h n p f =
    let few : ltb (length args + 1) maxargs ≡ true = ground arith in
    rw (
      few,
      parseredirs-arrows fuel rs (skip_space (print_arrows l after)) l after (skip-skip _) h n p f,
    )

-- The loop of `parseexec` reads the printed words and the redirections between them.
pub exec_loop-words :
    (fuel : ℕ) (args : List Text) (rs : List Redir) (s : Text) (ws : List Argument) (rest : Text)
    → skip_space s ≡ skip_space (print_words ws rest)
    → All (λ a. IsWord a.0 × AreArrows a.1) ws
    → length args + length ws < maxargs
    → Follows rest
    → length (print_words ws rest) < fuel
    → exec_loop fuel args rs s
      ≡ ok ((args ++ map (λ a. a.0) ws, rs ++ arrows_of ws), skip_space rest)
unfolding exec_loop
exec_loop-words zero args rs s ws rest e h m n f = absurd (omega arith)
exec_loop-words (suc fuel) args rs s [] rest e h m n f = elim (enders-Follows rest n) [
  | inl p ↦ rw (peek-skip enders s rest e, p, peek-rest enders rest, append-nil args, append-nil rs)
  | inr (p, z) ↦
      rw (peek-skip enders s rest e, p, peek-rest enders rest, z)
        (unfold gettoken in rw (append-nil args, append-nil rs))
]
exec_loop-words (suc fuel) args rs s ((w, l) ∷ ws) rest e h m n f =
    let after = print_words ws rest in
    let t = print_arrows l after in
    let k = length-append w t in
    let ends = EndsWord-words ws rest (Follows-EndsWord rest n) in
    rw
      (
        peek-skip enders s (print_word w t) e,
        enders-word w t h.0.0,
        peek-rest enders (print_word w t),
        gettoken-word (skip_space (print_word w t)) w t (skip-skip _) h.0.0
            (EndsWord-arrows l after ends),
      )
      (rw (
        add_word-word (suc fuel) args rs w l after (omega arith) h.0.1 ends
            (angles-words ws rest h.1 (angles-Follows rest n))
            (omega (arith, k, print_arrows-ge l after)),
        exec_loop-words fuel (args ++ (w ∷ [])) (rs ++ map target l) (skip_space after) ws rest
            (skip-skip after) h.1 (omega (arith, length-append args (w ∷ []))) n
            (omega (arith, k, print_arrows-ge l after)),
        append_assoc args (w ∷ []) (map (λ a. a.0) ws),
        append_assoc rs (map target l) (arrows_of ws),
      ))
