-- ===== src/Examples/Strings.antt =====
-- kernel/string.c and user/ulib.c at concrete inputs.
use proj.Common.{ℕ, ◌+◌, ◌<◌, ◌≡◌, ◌≢◌, ◌&&◌, arith, leb, ltb, ◌==◌, if◌then◌else◌}
use proj.Kstring.{Bytes, memset, memmove, memcmp, strlen, safestrcpy}
use proj.Ulib as Ulib
use proj.Ulib.Copy.{memmove-kernel}
use proj.Kstring as Kstring

abbrev ramp : Bytes
ramp a = a

-- The string of the three bytes 1, at address 10.
abbrev ones : Bytes
ones a = if leb 10 a && ltb a 13 then 1 else 0

ones_end : (i : ℕ) → i < 3 → ones (10 + i) ≢ 0
ones_end i h e = ground arith

memmove_user_example : Ulib.memmove 2 0 4 ramp ≡ Kstring.memmove 2 0 4 ramp
memmove_user_example = memmove-kernel 2 0 4 ramp (omega arith)

-- The text "42" at address 0.
abbrev forty_two : Bytes
forty_two a = if a == 0 then 52 else if a == 1 then 50 else 0
