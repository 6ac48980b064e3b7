-- ===== src/Examples/Buffers.antt =====
-- kernel/file.c at concrete inputs: a table with one file held once, a pipe.
use proj.Common.{true, false, [], ◌∷◌, arith, ◌==◌, if◌then◌else◌}
use proj.File.{Files, fd_pipe, fileclose}
use proj.File.Holders.{Counted, Closed, fileclose-Closed}

abbrev one_file : Files
one_file i = record {
  type_of = fd_pipe;
  ref = if i == 0 then 1 else 0;
  readable = true;
  writable = false;
  pipe = 4096;
  ip = 0;
  off = 0;
  major = 0;
}

one_file-Counted : Counted (0 ∷ []) one_file
one_file-Counted = record { counted = λ f. ground arith; few = omega arith }

fileclose_example : Closed 0 [] one_file (fileclose 0 one_file)
fileclose_example = fileclose-Closed 0 one_file-Counted
