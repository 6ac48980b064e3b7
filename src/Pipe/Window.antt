-- ===== src/Pipe/Window.antt =====
-- kernel/pipe.c: the bytes that a pipe holds, as a list. The counters wrap at 2 ^ 32, a multiple of
-- PIPESIZE, so that the buffer's index does not jump.
use proj.Common.{
  ℕ, zero, suc, ◌+◌, ◌-◌, ◌%◌, ◌^◌, ◌≤◌, ◌<◌, ◌≡◌, ◌≢◌, refl, ap, ap₂, ◌∙◌, List, [], ◌∷◌, ◌++◌,
  length, get_or, set, length-set, get_or-set_self, get_or-set_ne, arith,
}
use proj.Pipe.{Pipe, pipesize, put_byte, take_byte}

-- The `n` bytes from counter `j` on.
abbrev pub window : List ℕ → ℕ → ℕ → List ℕ
window bytes j zero = []
window bytes j (suc n) = get_or bytes (j % pipesize) 0 ∷ window bytes ((j + 1) % 2 ^ 32) n

abbrev pub used : Pipe → ℕ
used pi = (pi.nwrite + 2 ^ 32 - pi.nread) % 2 ^ 32

pub contents : Pipe → List ℕ
contents pi = window pi.bytes pi.nread (used pi)

pub record IsValid (pi : Pipe) : Type 0 where
  pub size : length pi.bytes ≡ pipesize
  pub nread_word : pi.nread < 2 ^ 32
  pub nwrite_word : pi.nwrite < 2 ^ 32
  pub fits : used pi ≤ pipesize

length-window : (bytes : List ℕ) (j n : ℕ) → length (window bytes j n) ≡ n
length-window bytes j zero = refl
length-window bytes j (suc n) = ap suc (length-window bytes ((j + 1) % 2 ^ 32) n)

window-set :
    (bytes : List ℕ) (j n i ch : ℕ)
    → length bytes ≡ pipesize
    → j < 2 ^ 32
    → n < pipesize
    → i ≡ (j + n) % 2 ^ 32 % pipesize
    → window (set bytes i ch) j (suc n) ≡ window bytes j n ++ (ch ∷ [])
window-set bytes j zero i ch len w lt e =
    let same : i ≡ j % pipesize = omega arith in
    rw (← same) (ap (λ x. x ∷ []) (get_or-set_self bytes i ch 0 (omega arith)))
window-set bytes j (suc n) i ch len w lt e =
    ap₂ (λ x xs. x ∷ xs) (get_or-set_ne bytes i (j % pipesize) ch 0 (λ p. absurd (omega arith)))
      (window-set bytes ((j + 1) % 2 ^ 32) n i ch len (omega arith) (omega arith) (omega arith))

pub length-contents : (pi : Pipe) → length (contents pi) ≡ used pi
unfolding contents
length-contents pi = length-window pi.bytes pi.nread (used pi)

-- A byte put into a pipe that is not full stands behind those that it holds.
pub put_byte_lem :
    {pi : Pipe} (ch : ℕ)
    → IsValid pi
    → used pi < pipesize
    → IsValid (put_byte pi ch) × (contents (put_byte pi ch) ≡ contents pi ++ (ch ∷ []))
unfolding put_byte contents
put_byte_lem {pi} ch v room =
    let more : (((pi.nwrite + 1) % 2 ^ 32) + 2 ^ 32 - pi.nread) % 2 ^ 32 ≡ suc (used pi) =
      omega arith in
    (
      record {
        size = length-set pi.bytes (pi.nwrite % pipesize) ch ∙ v.size;
        nread_word = v.nread_word;
        nwrite_word = omega arith;
        fits = omega arith;
      },
      rw more (
          window-set pi.bytes pi.nread (used pi) (pi.nwrite % pipesize) ch v.size v.nread_word room
            (omega arith)),
    )

-- A byte taken from a pipe that holds some is the first of them.
pub take_byte_lem :
    {pi : Pipe}
    → IsValid pi
    → pi.nread ≢ pi.nwrite
    → IsValid (take_byte pi).1 × (contents pi ≡ (take_byte pi).0 ∷ contents (take_byte pi).1)
unfolding take_byte contents
take_byte_lem {pi} v some_bytes =
    let rest = (pi.nwrite + 2 ^ 32 - ((pi.nread + 1) % 2 ^ 32)) % 2 ^ 32 in
    let more : used pi ≡ suc rest = omega arith in
    (
      record {
        size = v.size;
        nread_word = omega arith;
        nwrite_word = v.nwrite_word;
        fits = omega arith;
      },
      rw more,
    )
