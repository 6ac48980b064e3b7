-- ===== src/Shell/Grammar.antt =====
-- user/sh.c: lines, how they are written, and the commands that they denote.
use proj.Common.{ℕ, zero, suc, ◌<◌, ◌≡◌, true, List, [], ◌∷◌, ◌++◌, length, map, All}
use proj.Shell.Lexer.{Text, is_word}
use proj.Shell.{Redir, Cmd, exec, pipe, list, back, wrap, maxargs}

pub data Direction : Type 0 where
  input : Direction
  output : Direction
  append : Direction

-- A direction with the name of the file.
abbrev pub Arrow : Type 0
Arrow = Direction × Text

-- A word with the redirections after it.
abbrev pub Argument : Type 0
Argument = Text × List Arrow

-- A line has a number of `&`, a part of a pipe is a block or words with redirections before and
-- between them.
mutual
  pub data Line : Type 0 where
    last : Pipeline → ℕ → Line
    then_line : Pipeline → ℕ → Line → Line

  pub data Pipeline : Type 0 where
    one : Part → Pipeline
    into : Part → Pipeline → Pipeline

  pub data Part : Type 0 where
    words : List Arrow → List Argument → Part
    block : Line → List Arrow → Part

-- Each printer has what follows as its last argument.
abbrev pub print_word : Text → Text → Text
print_word w rest = b' ' ∷ (w ++ rest)

abbrev pub print_arrow : Arrow → Text → Text
print_arrow (input, w) rest = b'<' ∷ print_word w rest
print_arrow (output, w) rest = b'>' ∷ print_word w rest
print_arrow (append, w) rest = b'>' ∷ (b'>' ∷ print_word w rest)

abbrev pub print_arrows : List Arrow → Text → Text
print_arrows [] rest = rest
print_arrows (a ∷ rs) rest = print_arrow a (print_arrows rs rest)

abbrev pub print_words : List Argument → Text → Text
print_words [] rest = rest
print_words ((w, rs) ∷ ws) rest = print_word w (print_arrows rs (print_words ws rest))

abbrev pub ampersands : ℕ → Text → Text
ampersands zero rest = rest
ampersands (suc n) rest = b'&' ∷ ampersands n rest

abbrev mutual
  pub print_line : Line → Text → Text
  print_line (last p n) rest = print_pipe p (ampersands n rest)
  print_line (then_line p n l) rest = print_pipe p (ampersands n (b';' ∷ print_line l rest))

  pub print_pipe : Pipeline → Text → Text
  print_pipe (one e) rest = print_part e rest
  print_pipe (into e p) rest = print_part e (b'|' ∷ print_pipe p rest)

  pub print_part : Part → Text → Text
  print_part (words rs ws) rest = print_arrows rs (print_words ws rest)
  print_part (block l rs) rest = b'(' ∷ print_line l (b')' ∷ print_arrows rs rest)

-- The file that an arrow opens, and where.
abbrev pub target : Arrow → Redir
target (input, w) = record { file = w; mode = 0; fd = 0 }
target (output, w) = record { file = w; mode = 1537; fd = 1 }
target (append, w) = record { file = w; mode = 513; fd = 1 }

abbrev pub arrows_of : List Argument → List Redir
arrows_of [] = []
arrows_of ((w, rs) ∷ ws) = map target rs ++ arrows_of ws

abbrev pub backs : ℕ → Cmd → Cmd
backs zero c = c
backs (suc n) c = backs n (back c)

abbrev mutual
  pub line_of : Line → Cmd
  line_of (last p n) = backs n (pipe_of p)
  line_of (then_line p n l) = list (backs n (pipe_of p)) (line_of l)

  pub pipe_of : Pipeline → Cmd
  pipe_of (one e) = part_of e
  pipe_of (into e p) = pipe (part_of e) (pipe_of p)

  pub part_of : Part → Cmd
  part_of (words rs ws) = wrap (map target rs ++ arrows_of ws) (exec (map (λ a. a.0) ws))
  part_of (block l rs) = wrap (map target rs) (line_of l)

abbrev pub IsWord : Text → Type 0
IsWord [] = ⊥
IsWord (c ∷ w) = (is_word c ≡ true) × All (λ x. is_word x ≡ true) w

abbrev pub AreArrows : List Arrow → Type 0
AreArrows rs = All (λ a. IsWord a.1) rs

-- Every word is one word for `gettoken`, and no command has `maxargs` of them.
abbrev mutual
  pub IsLine : Line → Type 0
  IsLine (last p n) = IsPipe p
  IsLine (then_line p n l) = IsPipe p × IsLine l

  pub IsPipe : Pipeline → Type 0
  IsPipe (one e) = IsPart e
  IsPipe (into e p) = IsPart e × IsPipe p

  pub IsPart : Part → Type 0
  IsPart (words rs ws) =
      AreArrows rs × (All (λ a. IsWord a.0 × AreArrows a.1) ws) × (length ws < maxargs)
  IsPart (block l rs) = IsLine l × AreArrows rs
