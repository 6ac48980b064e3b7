-- ===== src/Examples/Terminal.antt =====
-- kernel/console.c at concrete inputs: "a" was entered with its newline, and "b" is edited.
use proj.Common.{ℕ, refl, true, false, [], arith, ◌==◌, if◌then◌else◌}
use proj.Console.{Cons, consoleintr, consoleread_turn}
use proj.Console.Lines.{Lines, Holds, lines_intr, consoleintr-Holds}
use proj.Console.Reader.{SameTurn, lines_read, consoleread_turn-Holds}

abbrev bytes_typed : ℕ → ℕ
bytes_typed i = if i == 0 then 97 else if i == 1 then 10 else 98

abbrev cons : Cons
cons = record { buf = bytes_typed; r = 0; w = 2; e = 3; sent = [] }

abbrev lines : Lines
lines = record { text = bytes_typed; entered = 2; edited = 1 }

cons-Holds : Holds cons lines
cons-Holds = record {
  read = omega arith;
  write = refl;
  edit = refl;
  room = omega arith;
  bytes = λ i lt. ground arith;
  one_line = λ i ge lt. λ e. ground arith;
}

consoleintr_example : Holds (consoleintr 21 cons) (lines_intr 21 lines)
consoleintr_example = consoleintr-Holds 21 cons lines cons-Holds

consoleread_example :
    SameTurn (consoleread_turn false true 8 8 cons) (lines_read false true 8 8 lines)
consoleread_example = consoleread_turn-Holds false true 8 8 cons lines cons-Holds
