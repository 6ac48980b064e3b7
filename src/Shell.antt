-- ===== src/Shell.antt =====
-- user/sh.c: the parser of the shell. `panic` ends the shell's child.
pub mod Lexer
pub mod Tokens
pub mod Ends
pub mod Total
pub mod Grammar
pub mod Words
pub mod Arguments
pub mod Rounds
pub mod Reads
use proj.Common.{
  ℕ, zero, suc, ◌+◌, Bool, true, false, not, ◌&&◌, ◌||◌, List, [], ◌∷◌, ◌++◌, length, Run, ok,
  panic, blocked, ◌>>=◌, ◌>>◌, panic_if, ◌==◌, ltb, if◌then◌else◌,
}
use proj.Shell.Lexer.{
  Text, one_of, whitespace, symbols, byte_at, is_word, tail, skip_space, take_word, Token, switch,
  gettoken, peek, angles, left_paren, right_paren, bar, ampersand, semicolon, enders,
}

-- What `redircmd` keeps of a redirection.
pub record Redir : Type 0 where
  pub file : Text
  pub mode : ℕ
  pub fd : ℕ

-- The words of an `execcmd` are those before the 0 that ends `argv`.
pub data Cmd : Type 0 where
  exec : List Text → Cmd
  redir : Cmd → Redir → Cmd
  pipe : Cmd → Cmd → Cmd
  list : Cmd → Cmd → Cmd
  back : Cmd → Cmd

-- O_RDONLY, O_WRONLY, O_CREATE and O_TRUNC; a sum of different bits is their disjunction.
abbrev rdonly : ℕ
rdonly = 0

abbrev wronly : ℕ
wronly = 1

abbrev create : ℕ
create = 512

abbrev trunc : ℕ
trunc = 1024

-- The switch of `parseredirs`, for a token that `peek` has seen to begin with `<` or `>`.
unfoldable pub redirection : ℕ → Text → Redir
redirection tok w =
    if tok == b'<'
    then record { file = w; mode = rdonly; fd = 0 }
    else if tok == b'>'
    then record { file = w; mode = wronly + create + trunc; fd = 1 }
    else record { file = w; mode = wronly + create; fd = 1 }

-- One round of the loop of `parseredirs`: the redirection read.
unfoldable pub read_redir : Text → Run (Redir × Text)
read_redir s =
    let t = gettoken s in
    let u = gettoken t.rest in
    if u.ret == b'a' then ok (redirection t.ret u.word, u.rest) else panic

-- `parseredirs`. The command that it is to wrap is still being filled by `parseexec`, so the
-- redirections are collected in the order of reading, and wrapped round the command by `wrap`.
unfoldable pub parseredirs : ℕ → List Redir → Text → Run (List Redir × Text)
parseredirs zero rs s = blocked
parseredirs (suc fuel) rs s =
    let more = read_redir (peek angles s).1 >>= λ p. parseredirs fuel (rs ++ (p.0 ∷ [])) p.1 in
    if (peek angles s).0 then more else ok (rs, (peek angles s).1)

-- `redircmd` once for each redirection, the last outermost.
unfoldable pub wrap : List Redir → Cmd → Cmd
wrap [] c = c
wrap (r ∷ rs) c = wrap rs (redir c r)

-- MAXARGS
abbrev pub maxargs : ℕ
maxargs = 10

-- One round of the loop of `parseexec` at a token that is a word: it is added, and the redirections
-- after it.
unfoldable pub add_word : ℕ → List Text → List Redir → Token → Run ((List Text × List Redir) × Text)
add_word fuel args rs t =
    if t.ret == b'a'
    then (panic_if (not (ltb (length args + 1) maxargs))
        >> (parseredirs fuel rs t.rest >>= λ p. ok ((args ++ (t.word ∷ []), p.0), p.1)))
    else panic

-- The loop of `parseexec`: the words and the redirections when it is left.
unfoldable pub exec_loop : ℕ → List Text → List Redir → Text → Run ((List Text × List Redir) × Text)
exec_loop zero args rs s = blocked
exec_loop (suc fuel) args rs s =
    let s' = (peek enders s).1 in
    let t = gettoken s' in
    let more = add_word (suc fuel) args rs t >>= λ p. exec_loop fuel p.0.0 p.0.1 p.1 in
    if (peek enders s).0
    then ok ((args, rs), s')
    else if t.ret == 0
    then ok ((args, rs), t.rest)
    else more

-- `gettoken(ps, es, 0, 0)` after a `peek` that was true.
abbrev pub skip_token : Text → Text
skip_token s = (gettoken s).rest

-- `parseblock`, with `parseline` as `line`.
unfoldable pub parseblock : (Text → Run (Cmd × Text)) → ℕ → Text → Run (Cmd × Text)
parseblock line fuel s = do
  panic_if (not (peek left_paren s).0)
  p ← line (skip_token (peek left_paren s).1)
  panic_if (not (peek right_paren p.1).0)
  q ← parseredirs fuel [] (skip_token (peek right_paren p.1).1)
  ok (wrap q.0 p.0, q.1)

-- The part of `parseexec` after the test for a block.
unfoldable pub parsewords : ℕ → Text → Run (Cmd × Text)
parsewords fuel s = do
  p ← parseredirs fuel [] s
  q ← exec_loop fuel [] p.0 p.1
  ok (wrap q.0.1 (exec q.0.0), q.1)

unfoldable pub parseexec : (Text → Run (Cmd × Text)) → ℕ → Text → Run (Cmd × Text)
parseexec line fuel s =
    let p = peek left_paren s in if p.0 then parseblock line fuel p.1 else parsewords fuel p.1

unfoldable pub parsepipe : (Text → Run (Cmd × Text)) → ℕ → Text → Run (Cmd × Text)
parsepipe line zero s = blocked
parsepipe line (suc fuel) s = do
  p ← parseexec line (suc fuel) s
  let s' = (peek bar p.1).1
  let right = parsepipe line fuel (skip_token s') >>= λ q. ok (pipe p.0 q.0, q.1)
  if (peek bar p.1).0 then right else ok (p.0, s')

-- The loop of `parseline`.
unfoldable pub back_loop : ℕ → Cmd → Text → Run (Cmd × Text)
back_loop zero c s = blocked
back_loop (suc fuel) c s =
    let s' = (peek ampersand s).1 in
    let more = back_loop fuel (back c) (skip_token s') in
    if (peek ampersand s).0 then more else ok (c, s')

unfoldable pub parseline : ℕ → Text → Run (Cmd × Text)
parseline zero s = blocked
parseline (suc fuel) s = do
  p ← parsepipe (parseline fuel) (suc fuel) s
  q ← back_loop (suc fuel) p.0 p.1
  let s' = (peek semicolon q.1).1
  let after = parseline fuel (skip_token s') >>= λ r. ok (list q.0 r.0, r.1)
  if (peek semicolon q.1).0 then after else ok (q.0, s')

-- The fuel is more than the bytes of the text, each of which is passed once.
unfoldable pub parsecmd : Text → Run Cmd
parsecmd s = do
  p ← parseline (suc (length s)) s
  panic_if (not (length (peek [] p.1).1 == 0))
  ok p.0
