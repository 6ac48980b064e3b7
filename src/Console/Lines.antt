-- ===== src/Console/Lines.antt =====
-- kernel/console.c: what is typed is a line that can be edited until it is entered.
use proj.Common.{
  ℕ, zero, suc, ◌+◌, ◌-◌, ◌%◌, ◌^◌, ◌≤◌, ◌<◌, ◌≡◌, ◌≢◌, refl, ap, ◌∙◌, subst, true, false, not,
  ◌&&◌, ◌||◌, arith, ◌==◌, ltb, if◌then◌else◌, put_at, Bool-cases, inl, inr,
}
use proj.Console.{
  Cons, input_buf_size, newline, end_of_file, erase, kill_line, last_byte, held, enter, consoleintr,
}

-- The bytes entered and then those of the line that is edited.
pub record Lines : Type 0 where
  pub text : ℕ → ℕ
  pub entered : ℕ
  pub edited : ℕ

abbrev pub total : Lines → ℕ
total l = l.entered + l.edited

-- One more byte of the line; a whole line is entered, and so is one for which there is no more
-- room.
abbrev pub lines_enter : ℕ → Lines → Lines
lines_enter c l =
    let text = put_at l.text (total l) c in
    if (c == newline) || (c == end_of_file) || (total l + 1 == input_buf_size)
    then record { text = text; entered = total l + 1; edited = 0 }
    else record { text = text; entered = l.entered; edited = l.edited + 1 }

-- ^P, ^U, ^H or delete, and any other byte.
abbrev pub lines_intr : ℕ → Lines → Lines
lines_intr c l =
    if c == 16
    then l
    else (if c == 21
        then record l { edited = 0 }
        else (if (c == 8) || (c == 127)
            then record l { edited = l.edited - 1 }
            else (if not (c == 0) && ltb (total l) input_buf_size
                then lines_enter (if c == 13 then newline else c) l
                else l)))

-- The buffer holds the lines.
pub record Holds (s : Cons) (l : Lines) : Type 0 where
  pub read : s.r < 2 ^ 32
  pub write : s.w ≡ (s.r + l.entered) % 2 ^ 32
  pub edit : s.e ≡ (s.r + total l) % 2 ^ 32
  pub room : total l ≤ input_buf_size
  pub bytes : (i : ℕ) → i < total l → s.buf ((s.r + i) % input_buf_size) ≡ l.text i
  pub one_line : (i : ℕ) → l.entered ≤ i → i < total l → l.text i ≢ newline

erase-Holds :
    (s : Cons) (l : Lines)
    → Holds s l
    → 0 < l.edited
    → Holds (erase s) (record l { edited = l.edited - 1 })
unfolding erase
erase-Holds s l h pos = record {
  read = h.read;
  write = h.write;
  edit = omega (arith, h.edit, pos);
  room = omega (arith, h.room);
  bytes = λ i lt. h.bytes i (omega (arith, lt));
  one_line = λ i ge lt. h.one_line i ge (omega (arith, lt));
}

is_empty-none : (s : Cons) (l : Lines) → Holds s l → l.edited ≡ 0 → (s.e == s.w) ≡ true
is_empty-none s l h z = let same : s.e ≡ s.w = omega (arith, h.edit, h.write, z) in ground arith

is_empty-some : (s : Cons) (l : Lines) → Holds s l → 0 < l.edited → (s.e == s.w) ≡ false
is_empty-some s l h pos =
    let apart : s.e ≢ s.w = λ e. omega (arith, h.edit, h.write, h.read, h.room, pos, e) in
    ground (arith, apart)

held-total : (s : Cons) (l : Lines) → Holds s l → held s ≡ total l
held-total s l h = omega (arith, h.edit, h.room, h.read)

-- The byte before the edit index is the last of the line, and no newline.
last_byte-line :
    (s : Cons) (l : Lines) → Holds s l → 0 < l.edited → (last_byte s == newline) ≡ false
last_byte-line s l h pos =
    let at : (s.e + 2 ^ 32 - 1) % 2 ^ 32 % input_buf_size ≡ (s.r + (total l - 1)) % input_buf_size =
      omega (arith, h.edit, h.read, pos) in
    let byte : last_byte s ≡ l.text (total l - 1) =
      ap s.buf at ∙ h.bytes (total l - 1) (omega (arith, pos)) in
    let other = h.one_line (total l - 1) (omega (arith, pos)) (omega (arith, pos)) in
    rw byte (ground (arith, other))

Holds-edited :
    (s : Cons) (l : Lines) (n : ℕ) → l.edited ≡ n → Holds s l → Holds s (record l { edited = n })
Holds-edited s l n e h = subst (λ k. Holds s (record l { edited = k })) e h

kill_line-Holds :
    (fuel : ℕ) (s : Cons) (l : Lines)
    → Holds s l
    → l.edited ≤ fuel
    → Holds (kill_line fuel s) (record l { edited = 0 })
unfolding kill_line
kill_line-Holds zero s l h enough = Holds-edited s l 0 (omega (arith, enough)) h
kill_line-Holds (suc fuel) s l h enough = elim (Bool-cases (l.edited == 0)) [
  | inl blank ↦
      let z : l.edited ≡ 0 = ground arith in rw (is_empty-none s l h z) (Holds-edited s l 0 z h)
  | inr more ↦
      let pos : 0 < l.edited = ground arith in
      rw (is_empty-some s l h pos, last_byte-line s l h pos)
        (kill_line-Holds fuel (erase s) (record l { edited = l.edited - 1 }) (erase-Holds s l h pos)
          (omega (arith, enough)))
]

Stored-bytes :
    (c : ℕ) (s : Cons) (l : Lines)
    → Holds s l
    → total l < input_buf_size
    → (i : ℕ) → i < total l + 1
    → put_at s.buf (s.e % input_buf_size) c ((s.r + i) % input_buf_size)
      ≡ put_at l.text (total l) c i
Stored-bytes c s l h room i lt =
    let at : s.e % input_buf_size ≡ (s.r + total l) % input_buf_size = omega (arith, h.edit) in
    elim (Bool-cases (i == total l)) [
      | inl here ↦
          let same : i ≡ total l = ground arith in
          let hit : ((s.r + i) % input_buf_size == s.e % input_buf_size) ≡ true =
            ground (arith, at, same) in
          rw (hit, here) refl
      | inr there ↦
          let apart : i < total l = ground arith in
          let ne : (s.r + i) % input_buf_size ≢ s.e % input_buf_size =
            λ e. omega (arith, e, at, apart, room) in
          let miss : ((s.r + i) % input_buf_size == s.e % input_buf_size) ≡ false =
            ground (arith, ne) in
          rw (miss, there) (h.bytes i apart)
    ]

enter-Holds :
    (c : ℕ) (s : Cons) (l : Lines)
    → Holds s l
    → total l < input_buf_size
    → Holds (enter c s) (lines_enter c l)
unfolding enter
enter-Holds c s l h room =
    let e' : (s.e + 1) % 2 ^ 32 ≡ (s.r + (total l + 1)) % 2 ^ 32 = omega (arith, h.edit) in
    let full : ((s.e + 1) % 2 ^ 32 + 2 ^ 32 - s.r) % 2 ^ 32 ≡ total l + 1 =
      omega (arith, h.edit, room, h.read) in
    let stored = Stored-bytes c s l h room in
    rw full
      (elim (Bool-cases ((c == newline) || (c == end_of_file) || (total l + 1 == input_buf_size))) [
        | inl whole ↦ rw whole (record {
          read = h.read;
          write = e';
          edit = omega (arith, e');
          room = omega (arith, room);
          bytes = λ i lt. stored i (omega (arith, lt));
          one_line = λ i ge lt. absurd (omega (arith, ge, lt));
        })
        | inr part ↦ rw part (record {
          read = h.read;
          write = h.write;
          edit = omega (arith, e');
          room = omega (arith, room);
          bytes = λ i lt. stored i (omega (arith, lt));
          one_line = λ i ge lt. ground (arith, h.one_line i ge);
        })
      ])

-- Where the buffer holds the bytes entered and a line that is edited, it does so after
-- `consoleintr`: a backspace takes the last byte of the line only, ^U the whole line and nothing
-- before it, and any other byte is added while there is room, and enters the line when it is a
-- newline, ^D, or the last there is room for.
pub consoleintr-Holds :
    (c : ℕ) (s : Cons) (l : Lines) → Holds s l → Holds (consoleintr c s) (lines_intr c l)
unfolding consoleintr
consoleintr-Holds c s l h = elim (Bool-cases (c == 16)) [
  | inl p ↦ rw p h
  | inr p ↦ elim (Bool-cases (c == 21)) [
    | inl u ↦ rw (p, u) (kill_line-Holds input_buf_size s l h (omega (arith, h.room)))
    | inr u ↦ elim (Bool-cases ((c == 8) || (c == 127))) [
      | inl b ↦
          rw (p, u, b)
            (elim (Bool-cases (l.edited == 0)) [
              | inl blank ↦
                  let z : l.edited ≡ 0 = ground arith in
                  rw (is_empty-none s l h z) (Holds-edited s l (l.edited - 1) (omega (arith, z)) h)
              | inr more ↦
                  let pos : 0 < l.edited = ground arith in
                  rw (is_empty-some s l h pos) (erase-Holds s l h pos)
            ])
      | inr b ↦
          rw (p, u, b, held-total s l h)
            (elim (Bool-cases (not (c == 0) && ltb (total l) input_buf_size)) [
              | inl room ↦
                  rw room (enter-Holds (if c == 13 then newline else c) s l h (ground arith))
              | inr full ↦ rw full h
            ])
    ]
  ]
]
