-- ===== src/Shell/Lexer.antt =====
-- user/sh.c: `gettoken` and `peek`. A pointer into the text is the bytes from there to the end, and
-- a word, which the source keeps as two pointers until `nulterminate` ends it, is its bytes.
use proj.Common.{ℕ, Bool, false, not, ◌&&◌, ◌||◌, List, [], ◌∷◌, ◌==◌, if◌then◌else◌}

abbrev pub Text : Type 0
Text = List ℕ

-- `strchr(toks, c) != 0`
abbrev pub one_of : Text → ℕ → Bool
one_of [] c = false
one_of (t ∷ ts) c = (t == c) || one_of ts c

-- " \t\r\n\v"
abbrev pub whitespace : Text
whitespace = 32 ∷ (9 ∷ (13 ∷ (10 ∷ (11 ∷ []))))

-- "<|>&;()"
abbrev pub symbols : Text
symbols = b'<' ∷ (b'|' ∷ (b'>' ∷ (b'&' ∷ (b';' ∷ (b'(' ∷ (b')' ∷ []))))))

-- `*s`
abbrev pub byte_at : Text → ℕ
byte_at [] = 0
byte_at (c ∷ s) = c

-- `s + 1`
abbrev pub tail : Text → Text
tail [] = []
tail (c ∷ s) = s

-- `while(s < es && strchr(whitespace, *s)) s++`
unfoldable pub skip_space : Text → Text
skip_space [] = []
skip_space (c ∷ s) = if one_of whitespace c then skip_space s else c ∷ s

abbrev pub is_word : ℕ → Bool
is_word c = not (one_of whitespace c) && not (one_of symbols c)

-- `while(s < es && !strchr(whitespace, *s) && !strchr(symbols, *s)) s++`: what was passed, and what
-- is left.
unfoldable pub take_word : Text → Text × Text
take_word [] = ([], [])
take_word (c ∷ s) = let (w, rest) = take_word s in if is_word c then (c ∷ w, rest) else ([], c ∷ s)

-- The value returned, the bytes between `*q` and `*eq`, and `*ps`.
pub record Token : Type 0 where
  pub ret : ℕ
  pub word : Text
  pub rest : Text

-- The switch, at a byte that is not white space.
abbrev pub switch : Text → Token
switch [] = record { ret = 0; word = []; rest = [] }
switch (c ∷ s) =
    if one_of (b'|' ∷ (b'(' ∷ (b')' ∷ (b';' ∷ (b'&' ∷ (b'<' ∷ [])))))) c
    then record { ret = c; word = c ∷ []; rest = s }
    else if c == b'>'
    then (if byte_at s == b'>'
        then record { ret = b'+'; word = c ∷ (c ∷ []); rest = tail s }
        else record { ret = c; word = c ∷ []; rest = s })
    else (let (w, rest) = take_word (c ∷ s) in record { ret = b'a'; word = w; rest = rest })

unfoldable pub gettoken : Text → Token
unfolding skip_space take_word
gettoken s = let t = switch (skip_space s) in record t { rest = skip_space t.rest }

-- The value returned, and `*ps`.
unfoldable pub peek : Text → Text → Bool × Text
peek toks s = let s' = skip_space s in (not (byte_at s' == 0) && one_of toks (byte_at s'), s')

-- The tokens that `peek` is asked for.
abbrev pub angles : Text
angles = b'<' ∷ (b'>' ∷ [])

abbrev pub left_paren : Text
left_paren = b'(' ∷ []

abbrev pub right_paren : Text
right_paren = b')' ∷ []

abbrev pub bar : Text
bar = b'|' ∷ []

abbrev pub ampersand : Text
ampersand = b'&' ∷ []

abbrev pub semicolon : Text
semicolon = b';' ∷ []

-- "|)&;"
abbrev pub enders : Text
enders = b'|' ∷ (b')' ∷ (b'&' ∷ (b';' ∷ [])))
