-- ===== src/Console/Reader.antt =====
-- kernel/console.c: `consoleread` takes what was entered.
use proj.Common.{
  ℕ, ◌+◌, ◌-◌, ◌%◌, ◌^◌, ◌<◌, ◌≡◌, refl, ap, ◌∙◌, Bool, true, false, not, Option, none, some, arith,
  ◌==◌, ltb, if◌then◌else◌, Bool-cases, inl, inr,
}
use proj.Console.{
  Cons, input_buf_size, newline, end_of_file, Turn, asleep, was_killed, leave, next, take_byte,
  consoleread_turn,
}
use proj.Console.Lines.{Lines, Holds}

abbrev pub lines_drop : Lines → Lines
lines_drop l = record l { text = λ i. l.text (i + 1); entered = l.entered - 1 }

-- A turn of the reader on the lines.
abbrev pub lines_read : Bool → Bool → ℕ → ℕ → Lines → Turn × Option ℕ × Lines
lines_read is_killed copied n target l =
    let c = l.text 0 in
    let l' = lines_drop l in
    if l.entered == 0
    then (if is_killed then (was_killed, none, l) else (asleep, none, l))
    else (if c == end_of_file
        then (leave, none, if ltb n target then l else l')
        else (if not copied
            then (leave, none, l')
            else (if c == newline then (leave, some c, l') else (next, some c, l'))))

abbrev pub SameTurn : Turn × Option ℕ × Cons → Turn × Option ℕ × Lines → Type 0
SameTurn (k, b, s) (k', b', l) = (k ≡ k') × (b ≡ b') × Holds s l

take_byte-Holds :
    (s : Cons) (l : Lines) → Holds s l → 0 < l.entered → Holds (take_byte s) (lines_drop l)
take_byte-Holds s l h pos = record {
  read = omega arith;
  write = omega (arith, h.write, pos);
  edit = omega (arith, h.edit, pos);
  room = omega (arith, h.room);
  bytes = λ i lt.
      let at : ((s.r + 1) % 2 ^ 32 + i) % input_buf_size ≡ (s.r + (i + 1)) % input_buf_size =
        omega arith in
      ap s.buf at ∙ h.bytes (i + 1) (omega (arith, lt, pos));
  one_line = λ i ge lt. h.one_line (i + 1) (omega (arith, ge)) (omega (arith, lt, pos));
}

-- Where the buffer holds the lines, a turn of `consoleread` does on the buffer what it means to do
-- on the lines: it sleeps, or returns -1 if the process is killed, exactly while nothing is
-- entered, and else takes the first byte that was entered: ^D is left for the next call if bytes
-- were read before it, and the line's end ends the read.
pub consoleread_turn-Holds :
    (is_killed copied : Bool) (n target : ℕ) (s : Cons) (l : Lines)
    → Holds s l
    → SameTurn
        (consoleread_turn is_killed copied n target s)
        (lines_read is_killed copied n target l)
unfolding consoleread_turn
consoleread_turn-Holds is_killed copied n target s l h = elim (Bool-cases (l.entered == 0)) [
  | inl nothing ↦
      let same : (s.r == s.w) ≡ true = ground (arith, h.write, h.read) in
      rw (same, nothing)
        (elim (Bool-cases is_killed) [
          | inl k ↦ rw k (refl, refl, h)
          | inr k ↦ rw k (refl, refl, h)
        ])
  | inr something ↦
      let pos : 0 < l.entered = ground arith in
      let apart : (s.r == s.w) ≡ false = ground (arith, h.write, h.read, h.room) in
      let at : s.r % input_buf_size ≡ (s.r + 0) % input_buf_size = omega arith in
      let first : s.buf (s.r % input_buf_size) ≡ l.text 0 =
        ap s.buf at ∙ h.bytes 0 (omega (arith, pos)) in
      let h' = take_byte-Holds s l h pos in
      rw (apart, something, first)
        (elim (Bool-cases (l.text 0 == end_of_file)) [
          | inl d ↦ rw d (elim (Bool-cases (ltb n target)) [
            | inl b ↦ rw b (refl, refl, h)
            | inr b ↦ rw b (refl, refl, h')
          ])
          | inr d ↦ rw d (elim (Bool-cases copied) [
            | inr c ↦ rw c (refl, refl, h')
            | inl c ↦ rw c (elim (Bool-cases (l.text 0 == newline)) [
              | inl b ↦ rw b (refl, refl, h')
              | inr b ↦ rw b (refl, refl, h')
            ])
          ])
        ])
]
