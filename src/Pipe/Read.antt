-- ===== src/Pipe/Read.antt =====
-- kernel/pipe.c: `piperead` on every path.
use proj.Common.{
  ℕ, zero, suc, ◌+◌, ◌%◌, ◌^◌, ◌≡◌, ◌≢◌, ◌⊎◌, inl, inr, refl, ap, ◌∙◌, Bool, true, false, ◌&&◌,
  none, some, List, [], ◌∷◌, ◌++◌, length, arith, ◌==◌, Bool-cases, Option-cases,
}
use proj.Pipe.{
  Pipe, Channel, readers, writers, User, End, returned, asleep, take_byte, poke, read_loop,
  piperead_run,
}
use proj.Pipe.Window.{IsValid, contents, length-contents, take_byte_lem}

-- The caller's memory after the list is copied to it from `addr + i` on.
pub deliver : User → ℕ → ℕ → List ℕ → User
deliver user addr i [] = user
deliver user addr i (b ∷ bs) = deliver (poke user ((addr + i) % 2 ^ 64) b) addr (i + 1) bs

-- What the copy of `piperead` has done, from index `i` with `left` to go: `lost` is a byte that it
-- took from the pipe and could not deliver.
pub record Read (addr left i : ℕ) (user : User) (pi : Pipe) (r : ℕ × User × Pipe) : Type 0 where
  pub received : List ℕ
  pub lost : List ℕ
  pub valid : IsValid r.2
  pub order : contents pi ≡ received ++ (lost ++ contents r.2)
  pub number : r.0 ≡ i + length received
  pub delivered : r.1 ≡ deliver user addr i received
  pub end :
      ((lost ≡ []) × ((r.0 ≡ i + left) ⊎ (contents r.2 ≡ [])))
      ⊎ ((length lost ≡ 1) × (user ((addr + r.0) % 2 ^ 64) ≡ none))

nil_of_length : {A : Type 0} (l : List A) → length l ≡ 0 → l ≡ []
nil_of_length [] e = refl
nil_of_length (x ∷ xs) e = absurd (omega arith)

no_bytes : (pi : Pipe) → IsValid pi → pi.nread ≡ pi.nwrite → contents pi ≡ []
no_bytes pi v e = nil_of_length (contents pi) (length-contents pi ∙ omega arith)

some_bytes : (pi : Pipe) → IsValid pi → pi.nread ≢ pi.nwrite → contents pi ≢ []
some_bytes pi v ne e = absurd (omega (arith, length-contents pi, ap (λ l. length l) e))

-- Why `piperead` does not wait.
ready :
    (pi : Pipe)
    → IsValid pi
    → ((pi.nread == pi.nwrite) && pi.writeopen) ≡ false
    → (contents pi ≢ []) ⊎ (pi.writeopen ≡ false)
ready pi v h = elim (Bool-cases (pi.nread == pi.nwrite)) [
  | inl e ↦ inr (ground arith)
  | inr ne ↦ inl (some_bytes pi v (ground arith))
]

abbrev ReadStop : ℕ → ℕ → ℕ → User → List ℕ → ℕ × User × Pipe → Type 0
ReadStop addr left i user lost r =
    ((lost ≡ []) × ((r.0 ≡ i + left) ⊎ (contents r.2 ≡ [])))
    ⊎ ((length lost ≡ 1) × (user ((addr + r.0) % 2 ^ 64) ≡ none))

ReadStop-step :
    (addr left i a ch : ℕ) (user : User) (lost : List ℕ) (r : ℕ × User × Pipe)
    → ReadStop addr left (i + 1) (poke user a ch) lost r
    → ReadStop addr (suc left) i user lost r
ReadStop-step addr left i a ch user lost r (inl (none_lost, inl all)) =
    inl (none_lost, inl (omega arith))
ReadStop-step addr left i a ch user lost r (inl (none_lost, inr empty)) = inl (none_lost, inr empty)
ReadStop-step addr left i a ch user lost r (inr (one, fault)) = inr (one, ground arith)

-- Nothing taken.
Read-stop :
    (addr left i : ℕ) (user : User) (pi : Pipe)
    → IsValid pi
    → (left ≡ 0) ⊎ (contents pi ≡ [])
    → Read addr left i user pi (i, user, pi)
unfolding deliver
Read-stop addr left i user pi v stop = record {
  received = [];
  lost = [];
  valid = v;
  order = refl;
  number = omega arith;
  delivered = refl;
  end = inl (refl, elim stop [ inl e ↦ inl (omega arith) | inr e ↦ inr e ]);
}

pub read_loop-Read :
    (addr left i : ℕ) (user : User) {pi : Pipe}
    → IsValid pi
    → Read addr left i user pi (read_loop addr left i user pi)
unfolding read_loop deliver
read_loop-Read addr zero i user {pi} v = Read-stop addr 0 i user pi v (inl refl)
read_loop-Read addr (suc left) i user {pi} v = elim (Bool-cases (pi.nread == pi.nwrite)) [
  | inl empty ↦
      rw empty (Read-stop addr (suc left) i user pi v (inr (no_bytes pi v (ground arith))))
  | inr more ↦
      let (v', e) = take_byte_lem v (ground arith) in
      let a = (addr + i) % 2 ^ 64 in
      elim (Option-cases (user a)) [
        | inl unmapped ↦
            rw (more, unmapped)
              (record {
                received = [];
                lost = (take_byte pi).0 ∷ [];
                valid = v';
                order = e;
                number = omega arith;
                delivered = refl;
                end = inr (refl, unmapped);
              })
        | inr (old, mapped) ↦
            let w = read_loop-Read addr left (i + 1) (poke user a (take_byte pi).0) v' in
            rw (more, mapped)
              (record {
                received = (take_byte pi).0 ∷ w.received;
                lost = w.lost;
                valid = w.valid;
                order = e ∙ ap (λ l. (take_byte pi).0 ∷ l) w.order;
                number = omega (arith, w.number);
                delivered = w.delivered;
                end =
                    ReadStop-step addr left i a (take_byte pi).0 user w.lost
                      (read_loop addr left (i + 1) (poke user a (take_byte pi).0) (take_byte pi).1)
                      w.end;
              })
      ]
]

-- How a run of `piperead` ends.
pub data ReadEnd (killed : Bool) (addr n : ℕ) (user : User) (pi : Pipe)
    : End × List Channel × User × Pipe → Type 0 where
  copied :
      {m : ℕ} {user' : User} {pi' : Pipe}
      → (contents pi ≢ []) ⊎ (pi.writeopen ≡ false)
      → Read addr n 0 user pi (m, user', pi')
      → ReadEnd killed addr n user pi (returned (some m), writers ∷ [], user', pi')
  waits :
      contents pi ≡ []
      → pi.writeopen ≡ true
      → killed ≡ false
      → ReadEnd killed addr n user pi (asleep readers 0, [], user, pi)
  dies :
      contents pi ≡ []
      → pi.writeopen ≡ true
      → killed ≡ true
      → ReadEnd killed addr n user pi (returned none, [], user, pi)

-- A run of `piperead` on a pipe that holds bytes or has no writer copies the oldest of them, in
-- order, to the caller's memory, returns their number and wakes the writers. It stops after `n`,
-- when none is left, or at an address that is not mapped; then the byte for it is lost. On an empty
-- pipe with a writer it sleeps, or returns -1 if the process is killed, and changes nothing.
pub piperead_run-ReadEnd :
    (killed : Bool) (addr n : ℕ) (user : User) {pi : Pipe}
    → IsValid pi
    → ReadEnd killed addr n user pi (piperead_run killed addr n user pi)
unfolding piperead_run
piperead_run-ReadEnd true addr n user {pi} v =
    elim (Bool-cases ((pi.nread == pi.nwrite) && pi.writeopen)) [
      | inl wait ↦ rw wait (dies (no_bytes pi v (ground arith)) (ground arith) refl)
      | inr go ↦ rw go (copied (ready pi v go) (read_loop-Read addr n 0 user v))
    ]
piperead_run-ReadEnd false addr n user {pi} v =
    elim (Bool-cases ((pi.nread == pi.nwrite) && pi.writeopen)) [
      | inl wait ↦ rw wait (waits (no_bytes pi v (ground arith)) (ground arith) refl)
      | inr go ↦ rw go (copied (ready pi v go) (read_loop-Read addr n 0 user v))
    ]
