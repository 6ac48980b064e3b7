-- ===== src/Log/Absorb.antt =====
-- kernel/log.c: `log_write` records a block once, and pins its buffer until the commit.
use proj.Common.{
  ℕ, ◌+◌, ◌-◌, ◌%◌, ◌^◌, ◌≤◌, ◌<◌, ◌≡◌, refl, ap, ◌∙◌, false, not, List, [], ◌∷◌, ◌++◌, length, set,
  count, count-append, length-append, inl, inr, ok, arith, ◌==◌, ltb, if◌then◌else◌, Bool-cases,
}
use proj.Log.{Log, bpin, find_block, log_write, commit}
use proj.Log.Events.{commit-emit, unpin_all}
use proj.Log.Recovery.{has}
use proj.Log.Crash.{commit-nil}

find_block_lem :
    (b : ℕ) (bs : List ℕ)
    → ((find_block b bs == length bs) ≡ not (has b bs)) × (set bs (find_block b bs) b ≡ bs)
unfolding find_block
find_block_lem b [] = (refl, refl)
find_block_lem b (x ∷ xs) = ground (arith, find_block_lem b xs)

-- When `log_write` returns, a block that was already logged has changed nothing (it is absorbed),
-- and any other stands last in the list, its buffer with one reference more.
pub log_write-absorbs :
    (b : ℕ) (l l' : Log)
    → log_write b l ≡ ok l'
    → l' ≡ (if has b l.lh then l else bpin b (record l { lh = l.lh ++ (b ∷ []) }))
unfolding log_write
log_write-absorbs b l l' e = ground (arith, find_block_lem b l.lh)

-- Each buffer has the references of others, and one for each time it is logged.
abbrev pub Pins : (ℕ → ℕ) → Log → Type 0
Pins others l = (a : ℕ) → l.refcnt a ≡ others a + count a l.lh

count-le-length : (a : ℕ) (bs : List ℕ) → count a bs ≤ length bs
count-le-length a [] = omega arith
count-le-length a (b ∷ bs) = ground (arith, count-le-length a bs)

unpin_all_lem :
    (others : ℕ → ℕ) (a : ℕ) (bs : List ℕ) (r : ℕ → ℕ)
    → ((x : ℕ) → others x + length bs < 2 ^ 32)
    → ((x : ℕ) → r x ≡ others x + count x bs)
    → unpin_all false bs r a ≡ others a
unfolding unpin_all
unpin_all_lem others a [] r small h = omega (arith, h a)
unpin_all_lem others a (b ∷ bs) r small h =
    unpin_all_lem others a bs (λ x. if x == b then (r x + 2 ^ 32 - 1) % 2 ^ 32 else r x)
      (λ x. omega (arith, small x)) (λ x. ground (arith, h x, small x, count-le-length x bs))

-- `log_write` pins what it logs and nothing else, and the commit takes exactly those references
-- back: no buffer stays pinned after it, and none loses a reference of another holder. (The
-- references of a buffer are a 32-bit number, which they must fit.)
pub log_write-Pins :
    (others : ℕ → ℕ) (b : ℕ) (l l' : Log)
    → ((x : ℕ) → others x + length l.lh + 1 < 2 ^ 32)
    → Pins others l
    → log_write b l ≡ ok l'
    → Pins others l' × ((a : ℕ) → (commit l').refcnt a ≡ others a)
log_write-Pins others b l l' small h e = (keeps, restores)
  where
    grown : l' ≡ (if has b l.lh then l else bpin b (record l { lh = l.lh ++ (b ∷ []) }))
    grown = log_write-absorbs b l l' e

    keeps : Pins others l'
    keeps a =
        ground (arith, grown, h a, small a, count-append a l.lh (b ∷ []), count-le-length a l.lh)

    shorter : length l'.lh ≤ length l.lh + 1
    shorter = ground (arith, grown, length-append l.lh (b ∷ []))

    restores : (a : ℕ) → (commit l').refcnt a ≡ others a
    restores a = elim (Bool-cases (ltb 0 (length l'.lh))) [
      | inl some_blocks ↦
          ap (λ (m : Log). m.refcnt a) (commit-emit l' some_blocks)
          ∙ unpin_all_lem others a l'.lh l'.refcnt (λ x. omega (arith, small x, shorter)) keeps
      | inr no_blocks ↦
          ap (λ (m : Log). m.refcnt a) (commit-nil l' no_blocks)
          ∙ ground (arith, keeps a, count-le-length a l'.lh)
    ]
