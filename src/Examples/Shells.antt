-- ===== src/Examples/Shells.antt =====
-- The shell's parser at concrete lines.
use proj.Common.{◌≡◌, ◌≢◌, [], ◌∷◌, ok, blocked, arith}
use proj.Shell.{parsecmd}
use proj.Shell.Grammar.{
  Line, last, then_line, one, into, words, block, input, output, append, print_line, line_of,
}
use proj.Shell.Reads.{parsecmd-print}
use proj.Shell.Total.{parsecmd-ends}

-- "(; a < x &) >> y | b c > z".
abbrev sample : Line
sample =
    last
      (into
        (block
          (then_line (one (words [] [])) 0
            (last (one (words [] ((b'a' ∷ [], (input, b'x' ∷ []) ∷ []) ∷ []))) 1))
          ((append, b'y' ∷ []) ∷ []))
        (one (words [] ((b'b' ∷ [], []) ∷ ((b'c' ∷ [], (output, b'z' ∷ []) ∷ []) ∷ [])))))
      0

parsecmd-print_example : parsecmd (print_line sample []) ≡ ok (line_of sample)
parsecmd-print_example = parsecmd-print sample (ground arith)

-- "a | ) >".
parsecmd-ends_example : parsecmd (b'a' ∷ (b' ' ∷ (b'|' ∷ (b')' ∷ (b' ' ∷ (b'>' ∷ [])))))) ≢ blocked
parsecmd-ends_example = parsecmd-ends (b'a' ∷ (b' ' ∷ (b'|' ∷ (b')' ∷ (b' ' ∷ (b'>' ∷ []))))))
