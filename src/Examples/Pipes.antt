-- ===== src/Examples/Pipes.antt =====
-- kernel/pipe.c at concrete inputs: a new pipe, and a caller whose first 16 bytes are mapped.
use proj.Common.{refl, false, none, some, replicate, arith, ltb, if◌then◌else◌}
use proj.Pipe.{Pipe, User, fresh, pipesize, pipewrite_run, piperead_run}
use proj.Pipe.Window.{IsValid}
use proj.Pipe.Write.{Wrote, pipewrite_run-Wrote}
use proj.Pipe.Read.{ReadEnd, piperead_run-ReadEnd}

abbrev user₀ : User
user₀ a = if ltb a 16 then some a else none

abbrev empty_pipe : Pipe
empty_pipe = fresh (replicate pipesize 0)

empty_pipe-IsValid : IsValid empty_pipe
empty_pipe-IsValid = record {
  size = refl;
  nread_word = omega arith;
  nwrite_word = omega arith;
  fits = omega arith;
}

pipewrite_example :
    Wrote false user₀ 14 4 0 empty_pipe (pipewrite_run false user₀ 14 4 0 empty_pipe)
pipewrite_example = pipewrite_run-Wrote false user₀ 14 4 0 empty_pipe-IsValid

piperead_example : ReadEnd false 0 4 user₀ empty_pipe (piperead_run false 0 4 user₀ empty_pipe)
piperead_example = piperead_run-ReadEnd false 0 4 user₀ empty_pipe-IsValid
