-- ===== src/Shell/Tokens.antt =====
-- user/sh.c: what `gettoken` and `peek` see of a text, and that each token shortens it.
use proj.Common.{
  ℕ, ◌+◌, ◌≤◌, ◌≡◌, refl, ap, ◌⊎◌, inl, inr, true, false, [], ◌∷◌, length, arith, ◌==◌, Bool-cases,
}
use proj.Shell.Lexer.{Text, one_of, whitespace, tail, skip_space, take_word, switch, gettoken, peek}

pub skip-skip : (s : Text) → skip_space (skip_space s) ≡ skip_space s
unfolding skip_space
skip-skip [] = refl
skip-skip (c ∷ s) = elim (Bool-cases (one_of whitespace c)) [
  | inl e ↦ rw e (skip-skip s)
  | inr e ↦ rw (e, e)
]

pub skip-le : (s : Text) → length (skip_space s) ≤ length s
unfolding skip_space
skip-le [] = omega arith
skip-le (c ∷ s) = ground (arith, skip-le s)

take_word-le : (s : Text) → length (take_word s).1 ≤ length s
unfolding take_word
take_word-le [] = omega arith
take_word-le (c ∷ s) = ground (arith, take_word-le s)

tail-le : (s : Text) → length (tail s) ≤ length s
tail-le [] = omega arith
tail-le (c ∷ s) = omega arith

-- Each token is at least one byte, and the byte 0 of the end is none.
switch-lt :
    (c : ℕ) (s : Text) → one_of whitespace c ≡ false → length (switch (c ∷ s)).rest ≤ length s
unfolding take_word
switch-lt c s e = ground (arith, take_word-le s, tail-le s)

skip-cases :
    (s : Text)
    → (skip_space s ≡ [])
      ⊎ ((c : ℕ) × (r : Text) × (skip_space s ≡ c ∷ r) × (one_of whitespace c ≡ false))
unfolding skip_space
skip-cases [] = inl refl
skip-cases (c ∷ s) = elim (Bool-cases (one_of whitespace c)) [
  | inl e ↦ rw e (skip-cases s)
  | inr e ↦ rw e (inr (c, s, refl, e))
]

-- A token is at least one byte.
gettoken-lt : (s : Text) → (skip_space s ≡ []) ⊎ (length (gettoken s).rest + 1 ≤ length s)
unfolding gettoken
gettoken-lt s = elim (skip-cases s) [
  | inl e ↦ inl e
  | inr (c, r, e, w) ↦
      inr (
        rw e
          (omega (arith, skip-le (switch (c ∷ r)).rest, switch-lt c r w, skip-le s, ap length e)))
]

pub gettoken-le : (s : Text) → length (gettoken s).rest ≤ length s
unfolding gettoken
gettoken-le s = elim (gettoken-lt s) [ inl e ↦ rw e (omega arith) | inr h ↦ omega arith ]

pub ret-lt : (s : Text) → ((gettoken s).ret == 0) ≡ false → length (gettoken s).rest + 1 ≤ length s
unfolding gettoken
ret-lt s e = elim (gettoken-lt s) [ inl n ↦ let z = rw n at e in cc | inr h ↦ h ]

pub peek-lt :
    (toks s : Text) → (peek toks s).0 ≡ true → length (gettoken (peek toks s).1).rest + 1 ≤ length s
unfolding peek
peek-lt toks s e = elim (gettoken-lt (skip_space s)) [
  | inl n ↦ let z = rw (rw (skip-skip s) at n) at e in cc
  | inr h ↦ omega (arith, skip-le s)
]
