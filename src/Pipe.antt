-- ===== src/Pipe.antt =====
-- kernel/pipe.c: a pipe, its reader and its writer. Each function holds `pi->lock` but where it
-- sleeps, so that a run of its body from one sleep to the next is one transition. User memory is
-- seen through the page table: the byte at each address, `none` where it is not mapped, so that
-- `copyin` and `copyout` of one byte are a read and a write of it.
pub mod Window
pub mod Write
pub mod Read
use proj.Common.{
  ℕ, zero, suc, ◌+◌, ◌%◌, ◌^◌, Bool, true, false, not, ◌&&◌, ◌||◌, Option, none, some, List, [],
  ◌∷◌, ◌++◌, ◌==◌, if◌then◌else◌, get_or, set,
}

abbrev pub pipesize : ℕ
pipesize = 512

pub record Pipe : Type 0 where
  pub bytes : List ℕ
  pub nread : ℕ
  pub nwrite : ℕ
  pub readopen : Bool
  pub writeopen : Bool

-- The channels `&pi->nread` and `&pi->nwrite`.
pub data Channel : Type 0 where
  readers writers : Channel

abbrev pub User : Type 0
User = ℕ → Option ℕ

-- How a run ends: with the value that the call returns (`none` for -1), or asleep on a channel,
-- with what the call has done so far.
pub data End : Type 0 where
  returned : Option ℕ → End
  asleep : Channel → ℕ → End

-- The fields that `pipealloc` sets up in the page that it allocates.
abbrev pub fresh : List ℕ → Pipe
fresh bytes = record { bytes = bytes; nread = 0; nwrite = 0; readopen = true; writeopen = true }

-- Whom it wakes, the pipe, and whether its page is freed.
unfoldable pub pipeclose : Pipe → Bool → Channel × Pipe × Bool
pipeclose pi writable =
    let pi' =
      if writable then record pi { writeopen = false } else record pi { readopen = false } in
    (if writable then readers else writers, pi', not pi'.readopen && not pi'.writeopen)

-- `pi->data[pi->nwrite++ % PIPESIZE] = ch`
unfoldable pub put_byte : Pipe → ℕ → Pipe
put_byte pi ch = record pi {
  bytes = set pi.bytes (pi.nwrite % pipesize) ch;
  nwrite = (pi.nwrite + 1) % 2 ^ 32;
}

-- `ch = pi->data[pi->nread++ % PIPESIZE]`
unfoldable pub take_byte : Pipe → ℕ × Pipe
take_byte pi =
    (get_or pi.bytes (pi.nread % pipesize) 0, record pi { nread = (pi.nread + 1) % 2 ^ 32 })

-- A call of `pipewrite` that has written `i` bytes and has `left` to go, up to its next sleep or
-- its end: the end, the wakeups in order, and the pipe.
unfoldable pub pipewrite_run : Bool → User → ℕ → ℕ → ℕ → Pipe → End × List Channel × Pipe
pipewrite_run killed user addr zero i pi = (returned (some i), readers ∷ [], pi)
pipewrite_run killed user addr (suc left) i pi =
    let go = elim (user ((addr + i) % 2 ^ 64)) as (λ _. End × List Channel × Pipe) [
      | none ↦ (returned (some i), readers ∷ [], pi)
      | some ch ↦ pipewrite_run killed user addr left (i + 1) (put_byte pi ch)
    ] in
    if not pi.readopen || killed
    then (returned none, [], pi)
    else if pi.nwrite == ((pi.nread + pipesize) % 2 ^ 32)
    then (asleep writers i, readers ∷ [], pi)
    else go

abbrev pub poke : User → ℕ → ℕ → User
poke user a ch b = if b == a then some ch else user b

-- The loop of `piperead` that copies, with `i` bytes read and `left` to go; what it returns.
unfoldable pub read_loop : ℕ → ℕ → ℕ → User → Pipe → ℕ × User × Pipe
read_loop addr zero i user pi = (i, user, pi)
read_loop addr (suc left) i user pi =
    let (ch, pi') = take_byte pi in
    let a = (addr + i) % 2 ^ 64 in
    let go = elim (user a) as (λ _. ℕ × User × Pipe) [
      | none ↦ (i, user, pi')
      | some _ ↦ read_loop addr left (i + 1) (poke user a ch) pi'
    ] in
    if pi.nread == pi.nwrite then (i, user, pi) else go

-- A run of `piperead` up to its next sleep or its end.
unfoldable pub piperead_run : Bool → ℕ → ℕ → User → Pipe → End × List Channel × User × Pipe
unfolding read_loop
piperead_run killed addr n user pi =
    let (i, user', pi') = read_loop addr n 0 user pi in
    if (pi.nread == pi.nwrite) && pi.writeopen
    then (if killed then (returned none, [], user, pi) else (asleep readers 0, [], user, pi))
    else (returned (some i), writers ∷ [], user', pi')
