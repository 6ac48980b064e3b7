-- ===== src/Log/Reserve.antt =====
-- kernel/log.c: `begin_op` reserves log space, so that no transaction is too big.
use proj.Common.{
  ℕ, zero, suc, ◌+◌, ◌*◌, ◌≤◌, ◌<◌, ◌≡◌, ap, ◌∙◌, true, false, List, [], ◌∷◌, length, set,
  get_elem?, All, some, ok, returns_ok, arith, ltb, Bool, Bool-cases, inl, inr, ◌⊎◌, length-append,
  length-set,
}
use proj.Log.{Log, commit, logsize, maxopblocks, begin_op, end_op_start, end_op_commit, log_write}
use proj.Log.Events.{commit-emit}
use proj.Log.Crash.{commit-nil}
use proj.Log.Absorb.{log_write-absorbs}

abbrev pub remove_at {ℓ} : {A : Type ℓ} → List A → ℕ → List A
remove_at [] i = []
remove_at (x ∷ xs) zero = xs
remove_at (x ∷ xs) (suc i) = x ∷ remove_at xs i

-- The log with the operations in progress, each by the number of `log_write` calls that it may
-- still make: an operation makes at most MAXOPBLOCKS. The steps are the parts of the code that run
-- with the log's lock held, or, for `committed`, with the flag `committing` set: one process sets it
-- and goes on to commit, and others may try to begin or end an operation before it has.
pub record State : Type 0 where
  pub log : Log
  pub budgets : List ℕ

pub data Step (s : State) : State → Type 0 where
  begin :
      {l : Log}
      → begin_op s.log ≡ ok l
      → Step s (record { log = l; budgets = maxopblocks ∷ s.budgets })
  write :
      {l : Log} (i n b : ℕ)
      → get_elem? s.budgets i ≡ some (suc n)
      → log_write b s.log ≡ ok l
      → Step s (record { log = l; budgets = set s.budgets i n })
  finish :
      {l : Log} (i n : ℕ) (do_commit : Bool)
      → get_elem? s.budgets i ≡ some n
      → end_op_start s.log ≡ ok (do_commit, l)
      → Step s (record { log = l; budgets = remove_at s.budgets i })
  committed :
      s.log.committing ≡ true → Step s (record { log = end_op_commit s.log; budgets = s.budgets })

-- From a log at rest, with no block logged and room for LOGSIZE blocks on the disk.
pub data Reach : State → Type 0 where
  start :
      (l : Log)
      → l.lh ≡ []
      → l.outstanding ≡ 0
      → l.committing ≡ false
      → logsize < l.size
      → Reach (record { log = l; budgets = [] })
  next : {s t : State} → Reach s → Step s t → Reach t

abbrev sum : List ℕ → ℕ
sum [] = 0
sum (x ∷ xs) = x + sum xs

record Inv (s : State) : Type 0 where
  counted : s.log.outstanding ≡ length s.budgets
  few : length s.budgets ≤ 3
  small : All (λ n. n ≤ maxopblocks) s.budgets
  space : length s.log.lh + sum s.budgets ≤ logsize
  idle : (s.log.committing ≡ false) ⊎ (length s.budgets ≡ 0)
  room : logsize < s.log.size

sum-le : (bs : List ℕ) → All (λ n. n ≤ maxopblocks) bs → sum bs ≤ length bs * maxopblocks
sum-le [] h = omega arith
sum-le (x ∷ xs) h = omega (arith, sum-le xs h.1, h.0)

sum-set : (bs : List ℕ) (i n : ℕ) → get_elem? bs i ≡ some (suc n) → sum (set bs i n) + 1 ≡ sum bs
sum-set [] i n e = cc
sum-set (x ∷ xs) zero n e = ground arith
sum-set (x ∷ xs) (suc i) n e = omega (arith, sum-set xs i n e)

All-set :
    (bs : List ℕ) (i n : ℕ)
    → get_elem? bs i ≡ some (suc n)
    → All (λ x. x ≤ maxopblocks) bs
    → All (λ x. x ≤ maxopblocks) (set bs i n)
All-set [] i n e h = h
All-set (x ∷ xs) zero n e h = (ground (arith, h.0), h.1)
All-set (x ∷ xs) (suc i) n e h = (h.0, All-set xs i n e h.1)

All-remove_at :
    (bs : List ℕ) (i : ℕ)
    → All (λ x. x ≤ maxopblocks) bs
    → All (λ x. x ≤ maxopblocks) (remove_at bs i)
All-remove_at [] i h = h
All-remove_at (x ∷ xs) zero h = h.1
All-remove_at (x ∷ xs) (suc i) h = (h.0, All-remove_at xs i h.1)

remove_at_lem :
    (bs : List ℕ) (i n : ℕ)
    → get_elem? bs i ≡ some n
    → (length (remove_at bs i) + 1 ≡ length bs) × (sum (remove_at bs i) + n ≡ sum bs)
remove_at_lem [] i n e = cc
remove_at_lem (x ∷ xs) zero n e = (omega arith, ground arith)
remove_at_lem (x ∷ xs) (suc i) n e =
    let (p, q) = remove_at_lem xs i n e in (omega arith, omega arith)

-- The commit leaves all of the log's own state but the list of blocks.
commit_keeps :
    (l : Log)
    → (length (commit l).lh ≡ 0)
      × ((commit l).outstanding ≡ l.outstanding)
      × ((commit l).size ≡ l.size)
commit_keeps l = elim (Bool-cases (ltb 0 (length l.lh))) [
  | inl h ↦
      let e = commit-emit l h in
      (
        ap (λ (m : Log). length m.lh) e,
        ap (λ (m : Log). m.outstanding) e,
        ap (λ (m : Log). m.size) e,
      )
  | inr h ↦
      let e = commit-nil l h in
      (
        ap (λ (m : Log). length m.lh) e ∙ ground arith,
        ap (λ (m : Log). m.outstanding) e,
        ap (λ (m : Log). m.size) e,
      )
]

begin-Inv :
    {s : State} {l : Log}
    → Inv s
    → begin_op s.log ≡ ok l
    → Inv (record { log = l; budgets = maxopblocks ∷ s.budgets })
unfolding begin_op
begin-Inv {s} {l} v e = ground (arith, sum-le s.budgets v.small)

write-Inv :
    {s : State} {l : Log} (i n b : ℕ)
    → Inv s
    → get_elem? s.budgets i ≡ some (suc n)
    → log_write b s.log ≡ ok l
    → Inv (record { log = l; budgets = set s.budgets i n })
write-Inv {s} {l} i n b v g e = ground (
  arith,
  log_write-absorbs b s.log l e,
  sum-set s.budgets i n g,
  length-set s.budgets i n,
  length-append s.log.lh (b ∷ []),
  All-set s.budgets i n g v.small,
)

finish-Inv :
    {s : State} {l : Log} (i n : ℕ) (do_commit : Bool)
    → Inv s
    → get_elem? s.budgets i ≡ some n
    → end_op_start s.log ≡ ok (do_commit, l)
    → Inv (record { log = l; budgets = remove_at s.budgets i })
unfolding end_op_start
finish-Inv {s} {l} i n do_commit v g e =
    ground (arith, remove_at_lem s.budgets i n g, All-remove_at s.budgets i v.small)

committed-Inv :
    {s : State} → Inv s → Inv (record { log = end_op_commit s.log; budgets = s.budgets })
unfolding end_op_commit
committed-Inv {s} v = ground (arith, v.small, commit_keeps s.log)

Reach-Inv : {s : State} → Reach s → Inv s
Reach-Inv (start l e o c r) = ground arith
Reach-Inv (next r (begin e)) = begin-Inv (Reach-Inv r) e
Reach-Inv (next r (write i n b g e)) = write-Inv i n b (Reach-Inv r) g e
Reach-Inv (next r (finish i n do_commit g e)) = finish-Inv i n do_commit (Reach-Inv r) g e
Reach-Inv (next r (committed c)) = committed-Inv (Reach-Inv r)

log_write-ok :
    {s : State} (b : ℕ)
    → Inv s
    → 0 < length s.budgets
    → length s.log.lh < logsize
    → (l : Log) × (log_write b s.log ≡ ok l)
unfolding log_write
log_write-ok {s} b v some_op fits = returns_ok (log_write b s.log) (ground arith) (ground arith)

end_op_start-ok :
    {s : State}
    → Inv s
    → 0 < length s.budgets
    → (do_commit : Bool) × (l : Log) × (end_op_start s.log ≡ ok (do_commit, l))
unfolding end_op_start
end_op_start-ok {s} v some_op =
    let idle : s.log.committing ≡ false = ground (arith, v.idle) in
    let ((do_commit, l), e) = returns_ok (end_op_start s.log) (ground arith) (ground arith) in
    (do_commit, l, e)

get_elem?-le-sum :
    (bs : List ℕ) (i n : ℕ) → get_elem? bs i ≡ some n → (n ≤ sum bs) × (0 < length bs)
get_elem?-le-sum [] i n e = cc
get_elem?-le-sum (x ∷ xs) zero n e = (ground arith, omega arith)
get_elem?-le-sum (x ∷ xs) (suc i) n e = (omega (arith, (get_elem?-le-sum xs i n e).0), omega arith)

-- Whatever operations begin, write, end and commit, in whatever order, an operation in progress that
-- has made fewer than MAXOPBLOCKS calls of `log_write` can make another: it returns, the transaction
-- is not too big. And while an operation is in progress nobody commits, so that `end_op` of it does
-- not find a commit in progress, and gets to where it releases the log's lock.
pub reserved :
    {s : State} (i n : ℕ)
    → Reach s
    → get_elem? s.budgets i ≡ some n
    → ((b : ℕ) → 0 < n → (l : Log) × (log_write b s.log ≡ ok l))
      × (s.log.committing ≡ false)
      × ((do_commit : Bool) × (l : Log) × (end_op_start s.log ≡ ok (do_commit, l)))
reserved {s} i n r g =
    let v = Reach-Inv r in
    let (le, some_op) = get_elem?-le-sum s.budgets i n g in
    (
      λ b pos. log_write-ok b v some_op (omega (arith, v.space)),
      ground (arith, v.idle),
      end_op_start-ok v some_op,
    )
