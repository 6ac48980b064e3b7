-- ===== src/Bio/Order.antt =====
-- kernel/bio.c: the two loops of `bget`, as searches of the list of buffers.
use proj.Common.{
  put_at, or_else, ℕ, zero, suc, ◌+◌, ◌<◌, ◌≡◌, ◌≢◌, refl, sym, ap, ◌∙◌, Bool, false, Option, none,
  some, List, [], ◌∷◌, count, length, arith, ◌==◌, if◌then◌else◌, Bool-cases, inl, inr,
}
use proj.Bio.{nbuf, head, Bcache, Bufs, push_front, scan, set_lock, binit_loop, binit}
use proj.Bio.Links.{Links}
use proj.Bio.Ring.{Ring, push_front-Ring}
use proj.Sleeplock.{initsleeplock}

abbrev pub find : (ℕ → Bool) → List ℕ → Option ℕ
find test [] = none
find test (x ∷ xs) = if test x then some x else find test xs

abbrev pub find_last : (ℕ → Bool) → List ℕ → Option ℕ
find_last test [] = none
find_last test (x ∷ xs) = or_else (find_last test xs) (if test x then some x else none)

scan_forward :
    (n p : ℕ → ℕ) (test : ℕ → Bool) (fuel a : ℕ) (xs : List ℕ)
    → Links n p a xs head
    → count head xs ≡ 0
    → length xs < fuel
    → scan n test fuel (n a) ≡ find test xs
unfolding scan
scan_forward n p test zero a xs l out h = absurd (omega arith)
scan_forward n p test (suc fuel) a [] l out h = rw l.0 refl
scan_forward n p test (suc fuel) a (x ∷ xs) l out h =
    let off : (x == head) ≡ false = ground arith in
    rw (l.0, off, scan_forward n p test fuel x xs l.2 (ground arith) (omega arith)) refl

or_else_assoc : (a b c : Option ℕ) → or_else (or_else a b) c ≡ or_else a (or_else b c)
or_else_assoc none b c = refl
or_else_assoc (some x) b c = refl

scan_step :
    (p : ℕ → ℕ) (test : ℕ → Bool) (fuel a x : ℕ)
    → p x ≡ a
    → x ≢ head
    → scan p test (suc fuel) x ≡ or_else (if test x then some x else none) (scan p test fuel a)
unfolding scan
scan_step p test fuel a x e ne =
    let off : (x == head) ≡ false = ground arith in
    rw (off, e) (elim (Bool-cases (test x)) [ inl h ↦ rw h refl | inr h ↦ rw h refl ])

scan_backward :
    (n p : ℕ → ℕ) (test : ℕ → Bool) (fuel a c : ℕ) (xs : List ℕ)
    → Links n p a xs c
    → count head xs ≡ 0
    → scan p test (length xs + fuel) (p c) ≡ or_else (find_last test xs) (scan p test fuel a)
scan_backward n p test fuel a c [] l out =
    ap (λ k. scan p test k (p c)) (omega arith) ∙ ap (λ k. scan p test fuel k) l.1
scan_backward n p test fuel a c (x ∷ xs) l out =
    let more : suc (length xs) + fuel ≡ length xs + suc fuel = omega arith in
    rw more (
      scan_backward n p test (suc fuel) x c xs l.2 (ground arith)
      ∙ ap (or_else (find_last test xs)) (scan_step p test fuel a x l.1 (λ e. ground arith))
      ∙ sym (
          or_else_assoc (find_last test xs) (if test x then some x else none) (scan p test fuel a)))

-- All buffers stand in the ring, the most recently used first.
pub record Full (s : Bcache) (xs : List ℕ) : Type 0 where
  pub ring : Ring s xs
  pub size : length xs ≡ nbuf
  pub all_in : (b : ℕ) → b < nbuf → 0 < count b xs

scan-head : (p : ℕ → ℕ) (test : ℕ → Bool) (fuel : ℕ) → scan p test (suc fuel) head ≡ none
unfolding scan
scan-head p test fuel = refl

or_else-none : (a : Option ℕ) → or_else a none ≡ a
or_else-none none = refl
or_else-none (some x) = refl

-- The first loop of `bget` finds the most recently used of the buffers that pass its test.
pub scan-next :
    {s : Bcache} {xs : List ℕ} (test : ℕ → Bool)
    → Full s xs
    → scan s.next test (nbuf + 1) (s.next head) ≡ find test xs
scan-next {s} {xs} test f =
    scan_forward s.next s.prev test (nbuf + 1) head xs f.ring.links
      (ground (arith, f.ring.inside head)) (omega (arith, f.size))

-- The second finds the least recently used.
pub scan-prev :
    {s : Bcache} {xs : List ℕ} (test : ℕ → Bool)
    → Full s xs
    → scan s.prev test (nbuf + 1) (s.prev head) ≡ find_last test xs
scan-prev {s} {xs} test f =
    let fuel : nbuf + 1 ≡ length xs + 1 = omega (arith, f.size) in
    ap (λ k. scan s.prev test k (s.prev head)) fuel
    ∙ scan_backward s.next s.prev test 1 head head xs f.ring.links
        (ground (arith, f.ring.inside head))
    ∙ rw (scan-head s.prev test 0) (or_else-none (find_last test xs))

-- The buffers from `b` on in the order in which `binit` leaves them, before those that stand
-- already.
abbrev pub pushed : ℕ → ℕ → List ℕ → List ℕ
pushed zero b xs = xs
pushed (suc n) b xs = pushed n (b + 1) (b ∷ xs)

Ring-bufs : {s : Bcache} {xs : List ℕ} (m : Bufs) → Ring s xs → Ring (record s { bufs = m }) xs
Ring-bufs m r = record { links = r.links; distinct = r.distinct; inside = r.inside }

binit_loop-Full :
    (n b : ℕ) (s : Bcache) (xs : List ℕ)
    → b + n ≡ nbuf
    → Ring s xs
    → length xs ≡ b
    → ((c : ℕ) → (0 < count c xs → c < b) × (c < b → 0 < count c xs))
    → Full (binit_loop n b s) (pushed n b xs)
unfolding binit_loop
binit_loop-Full zero b s xs e r l below = record {
  ring = r;
  size = omega (arith, l, e);
  all_in = λ c h. (below c).1 (omega arith);
}
binit_loop-Full (suc n) b s xs e r l below =
    let m = set_lock b initsleeplock s.bufs in
    binit_loop-Full n (b + 1) (push_front b (record s { bufs = m })) (b ∷ xs) (omega arith)
      (push_front-Ring b xs (Ring-bufs m r) (omega arith) (ground (arith, (below b).0)))
      (omega (arith, l)) (λ c. (λ h. ground (arith, (below c).0), λ h. ground (arith, (below c).1)))

pub binit-Full : (s : Bcache) → Full (binit s) (pushed nbuf 0 [])
unfolding binit
binit-Full s =
    binit_loop-Full nbuf 0
      (record s { prev = put_at s.prev head head; next = put_at s.next head head }) [] refl
      (record { links = (refl, refl); distinct = λ y. ground arith; inside = λ y h. ground arith })
      refl (λ c. ground arith)
