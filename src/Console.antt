-- ===== src/Console.antt =====
-- kernel/console.c: the input of the console. Each function holds `cons.lock` but where it sleeps,
-- so that a turn of its loop is one transition. The indices are 32-bit numbers that only grow.
pub mod Lines
pub mod Reader
use proj.Common.{
  ℕ, zero, suc, ◌+◌, ◌-◌, ◌%◌, ◌^◌, Bool, true, false, not, ◌&&◌, ◌||◌, Option, none, some, List,
  [], ◌∷◌, ◌++◌, ◌==◌, ltb, if◌then◌else◌, put_at,
}

abbrev pub input_buf_size : ℕ
input_buf_size = 128

-- `BACKSPACE`
abbrev pub backspace : ℕ
backspace = 256

abbrev pub newline : ℕ
newline = 10

-- `C('D')`
abbrev pub end_of_file : ℕ
end_of_file = 4

-- `cons`, and what was sent to the UART, the last byte first.
pub record Cons : Type 0 where
  pub buf : ℕ → ℕ
  pub r : ℕ
  pub w : ℕ
  pub e : ℕ
  pub sent : List ℕ

abbrev pub consputc : ℕ → Cons → Cons
consputc c s = record s { sent = if c == backspace then 8 ∷ (32 ∷ (8 ∷ s.sent)) else c ∷ s.sent }

-- `cons.e--; consputc(BACKSPACE)`
unfoldable pub erase : Cons → Cons
erase s = consputc backspace (record s { e = (s.e + 2 ^ 32 - 1) % 2 ^ 32 })

abbrev pub last_byte : Cons → ℕ
last_byte s = s.buf ((s.e + 2 ^ 32 - 1) % 2 ^ 32 % input_buf_size)

-- The loop of `C('U')`, on fuel: the buffer has INPUT_BUF_SIZE bytes.
unfoldable pub kill_line : ℕ → Cons → Cons
unfolding erase
kill_line zero s = s
kill_line (suc fuel) s =
    let rest = kill_line fuel (erase s) in
    if not (s.e == s.w) && not (last_byte s == newline) then rest else s

-- `cons.e-cons.r`
abbrev pub held : Cons → ℕ
held s = (s.e + 2 ^ 32 - s.r) % 2 ^ 32

-- A line is there for the reader, which is woken.
abbrev pub wake_reader : ℕ → Cons → Cons
wake_reader c s =
    if (c == newline) || (c == end_of_file) || (held s == input_buf_size)
    then record s { w = s.e }
    else s

-- `cons.buf[cons.e++ % INPUT_BUF_SIZE] = c`
abbrev pub store_byte : ℕ → Cons → Cons
store_byte c s = record s { buf = put_at s.buf (s.e % input_buf_size) c; e = (s.e + 1) % 2 ^ 32 }

unfoldable pub enter : ℕ → Cons → Cons
enter c s = wake_reader c (store_byte c (consputc c s))

unfoldable pub consoleintr : ℕ → Cons → Cons
unfolding kill_line erase enter
consoleintr c s =
    if c == 16
    then s
    else (if c == 21
        then kill_line input_buf_size s
        else (if (c == 8) || (c == 127)
            then (if s.e == s.w then s else erase s)
            else (if not (c == 0) && ltb (held s) input_buf_size
                then enter (if c == 13 then newline else c) s
                else s)))

-- What a turn of the loop of `consoleread` comes to: it sleeps, it returns -1, it leaves the loop,
-- or it goes on to the next byte.
pub data Turn : Type 0 where
  asleep : Turn
  was_killed : Turn
  leave : Turn
  next : Turn

abbrev pub take_byte : Cons → Cons
take_byte s = record s { r = (s.r + 1) % 2 ^ 32 }

-- A turn with `n` of `target` bytes to go; `copied` is what `either_copyout` does. With it comes
-- the byte that reaches the user.
unfoldable pub consoleread_turn : Bool → Bool → ℕ → ℕ → Cons → Turn × Option ℕ × Cons
consoleread_turn is_killed copied n target s =
    let c = s.buf (s.r % input_buf_size) in
    let s' = take_byte s in
    if s.r == s.w
    then (if is_killed then (was_killed, none, s) else (asleep, none, s))
    else (if c == end_of_file
        then (leave, none, if ltb n target then s else s')
        else (if not copied
            then (leave, none, s')
            else (if c == newline then (leave, some c, s') else (next, some c, s'))))
