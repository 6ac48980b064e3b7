-- ===== src/Pipe/Write.antt =====
-- kernel/pipe.c: `pipewrite` on every path.
use proj.Common.{
  ℕ, zero, suc, ◌+◌, ◌%◌, ◌^◌, ◌<◌, ◌≡◌, ◌⊎◌, inl, inr, refl, sym, ap, ◌∙◌, Bool, true, false, not,
  ◌||◌, none, some, List, [], ◌∷◌, ◌++◌, append-nil, append_assoc, length, arith, ◌==◌, Bool-cases,
  Option-cases,
}
use proj.Pipe.{
  Pipe, Channel, readers, writers, User, End, returned, asleep, pipesize, put_byte, pipewrite_run,
}
use proj.Pipe.Window.{IsValid, contents, used, length-contents, put_byte_lem}

-- The bytes of user memory from `addr + i` on begin with the list.
abbrev pub Bytes : User → ℕ → ℕ → List ℕ → Type 0
Bytes user addr i [] = Unit
Bytes user addr i (b ∷ bs) = (user ((addr + i) % 2 ^ 64) ≡ some b) × Bytes user addr (i + 1) bs

-- What a run of `pipewrite` promises that starts with `i` bytes written, `left` to go.
abbrev pub WriteEnd : Bool → User → ℕ → ℕ → ℕ → Pipe → List ℕ → End × List Channel × Pipe → Type 0
WriteEnd killed user addr left i pi bs (returned (some m), ws, pi') =
    (m ≡ i + length bs)
    × (ws ≡ readers ∷ [])
    × ((m ≡ i + left) ⊎ (user ((addr + m) % 2 ^ 64) ≡ none))
WriteEnd killed user addr left i pi bs (returned none, ws, pi') = (not pi.readopen || killed) ≡ true
WriteEnd killed user addr left i pi bs (asleep readers m, ws, pi') = ⊥
WriteEnd killed user addr left i pi bs (asleep writers m, ws, pi') =
    (m ≡ i + length bs) × (ws ≡ readers ∷ []) × (m < i + left) × (length (contents pi') ≡ pipesize)

pub record Wrote (killed : Bool) (user : User) (addr left i : ℕ) (pi : Pipe)
    (r : End × List Channel × Pipe) : Type 0 where
  pub sent : List ℕ
  pub valid : IsValid r.2
  pub queued : contents r.2 ≡ contents pi ++ sent
  pub from_user : Bytes user addr i sent
  pub end : WriteEnd killed user addr left i pi sent r

full_iff :
    {pi : Pipe}
    → IsValid pi
    → ((pi.nwrite == ((pi.nread + pipesize) % 2 ^ 32)) ≡ true → used pi ≡ pipesize)
      × ((pi.nwrite == ((pi.nread + pipesize) % 2 ^ 32)) ≡ false → used pi < pipesize)
full_iff v = (λ h. ground arith, λ h. ground arith)

readopen-put_byte : (pi : Pipe) (ch : ℕ) → (put_byte pi ch).readopen ≡ pi.readopen
unfolding put_byte
readopen-put_byte pi ch = refl

-- One more byte in front of what a run has sent.
WriteEnd-step :
    (killed : Bool) (user : User) (addr left i ch : ℕ) (pi : Pipe) (bs : List ℕ)
    (r : End × List Channel × Pipe)
    → WriteEnd killed user addr left (i + 1) (put_byte pi ch) bs r
    → WriteEnd killed user addr (suc left) i pi (ch ∷ bs) r
WriteEnd-step killed user addr left i ch pi bs (returned (some m), ws, pi') w =
    (omega arith, w.1, elim w.2 [ inl h ↦ inl (omega arith) | inr h ↦ inr h ])
WriteEnd-step killed user addr left i ch pi bs (returned none, ws, pi') w =
    rw (← readopen-put_byte pi ch) w
WriteEnd-step killed user addr left i ch pi bs (asleep readers m, ws, pi') w = w
WriteEnd-step killed user addr left i ch pi bs (asleep writers m, ws, pi') w =
    (omega arith, w.1, omega arith, w.3)

-- A run of `pipewrite` puts bytes of the caller's memory, in order and from where it had got to,
-- behind those that the pipe holds. It stops with all of them written, or at the first that is not
-- mapped, returns their number and wakes the readers; or it sleeps, with the pipe full and the
-- readers woken; or it returns -1, and then the pipe has no reader or the process is killed.
pub pipewrite_run-Wrote :
    (killed : Bool) (user : User) (addr left i : ℕ) {pi : Pipe}
    → IsValid pi
    → Wrote killed user addr left i pi (pipewrite_run killed user addr left i pi)
unfolding pipewrite_run
pipewrite_run-Wrote killed user addr zero i {pi} v = record {
  sent = [];
  valid = v;
  queued = sym (append-nil (contents pi));
  from_user = tt;
  end = (omega arith, refl, inl (omega arith));
}
pipewrite_run-Wrote killed user addr (suc left) i {pi} v =
    elim (Bool-cases (not pi.readopen || killed)) [
      | inl stop ↦ rw stop (record {
        sent = [];
        valid = v;
        queued = sym (append-nil (contents pi));
        from_user = tt;
        end = stop;
      })
      | inr go ↦ elim (Bool-cases (pi.nwrite == ((pi.nread + pipesize) % 2 ^ 32))) [
        | inl full ↦
            rw (go, full)
              (record {
                sent = [];
                valid = v;
                queued = sym (append-nil (contents pi));
                from_user = tt;
                end = (omega arith, refl, omega arith, length-contents pi ∙ (full_iff v).0 full);
              })
        | inr room ↦ elim (Option-cases (user ((addr + i) % 2 ^ 64))) [
          | inl unmapped ↦
              rw (go, room, unmapped)
                (record {
                  sent = [];
                  valid = v;
                  queued = sym (append-nil (contents pi));
                  from_user = tt;
                  end = (omega arith, refl, inr unmapped);
                })
          | inr (ch, mapped) ↦
              let (v', e) = put_byte_lem ch v ((full_iff v).1 room) in
              let w = pipewrite_run-Wrote killed user addr left (i + 1) v' in
              rw (go, room, mapped)
                (record {
                  sent = ch ∷ w.sent;
                  valid = w.valid;
                  queued =
                      w.queued
                      ∙ ap (λ l. l ++ w.sent) e
                      ∙ append_assoc (contents pi) (ch ∷ []) w.sent;
                  from_user = (mapped, w.from_user);
                  end = WriteEnd-step killed user addr left i ch pi w.sent _ w.end;
                })
        ]
      ]
    ]
