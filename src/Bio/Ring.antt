-- ===== src/Bio/Ring.antt =====
-- kernel/bio.c: the ring of buffers, and what taking one out and putting it in front do to it.
use proj.Common.{
  put_at, ℕ, ◌+◌, ◌≤◌, ◌<◌, ◌≡◌, false, List, [], ◌∷◌, ◌++◌, count, count-append, append-nil, arith,
  ◌==◌,
}
use proj.Bio.{nbuf, head, Bcache, push_front, unlink}
use proj.Bio.Links.{
  Links, Links-frame, Links-split, Links-join, Links-redirect_end, prev-mem, next-mem,
}

-- The list holds the buffers, the one after the head first, each of them once.
pub record Ring (s : Bcache) (xs : List ℕ) : Type 0 where
  pub links : Links s.next s.prev head xs head
  pub distinct : (y : ℕ) → count y xs ≤ 1
  pub inside : (y : ℕ) → 0 < count y xs → y < nbuf

-- Two parts of a list joined without what stood between them.
Links-skip :
    (n p : ℕ → ℕ) (b : ℕ) (xs ys : List ℕ)
    → Links n p head xs b
    → Links n p b ys head
    → ((y : ℕ) → count y xs + count y (b ∷ ys) ≤ 1)
    → count head xs + count head (b ∷ ys) ≡ 0
    → Links (put_at n (p b) (n b)) (put_at p (n b) (p b)) head (xs ++ ys) head
Links-skip n p b xs [] l r once out =
    rw (append-nil, r.0)
      (Links-redirect_end n p head b head xs l (λ y. ground (arith, once y)) (ground arith))
Links-skip n p b xs (y ∷ ys) l r once out =
    let mem = prev-mem n p head b xs l in
    rw r.0 (
      Links-join (put_at n (p b) y) (put_at p y (p b)) head y head xs ys
        (Links-redirect_end n p head b y xs l (λ z. ground (arith, once z))
          (ground (arith, once y)))
        (Links-frame n p (put_at n (p b) y) (put_at p y (p b)) y head ys r.2
          (λ z h. ground (arith, mem, once (p b))) (λ z h. ground (arith, once y))))

unlink-Links :
    (b : ℕ) (xs ys : List ℕ) {s : Bcache}
    → Ring s (xs ++ (b ∷ ys))
    → Links (unlink b s).next (unlink b s).prev head (xs ++ ys) head
unfolding unlink
unlink-Links b xs ys {s} r =
    let (l₁, l₂) = Links-split s.next s.prev head b head xs ys r.links in
    let off : (b == s.next b) ≡ false = ground (
      arith,
      next-mem s.next s.prev b head ys l₂,
      r.distinct b,
      r.inside b,
      count-append b xs (b ∷ ys),
    ) in
    rw off (
      Links-skip s.next s.prev b xs ys l₁ l₂
        (λ y. omega (arith, r.distinct y, count-append y xs (b ∷ ys)))
        (ground (arith, r.inside head, count-append head xs (b ∷ ys))))

push_front-Links :
    (b : ℕ) (xs : List ℕ) {s : Bcache}
    → Ring s xs
    → b < nbuf
    → count b xs ≡ 0
    → Links (push_front b s).next (push_front b s).prev head (b ∷ xs) head
unfolding push_front
push_front-Links b [] {s} r lt new =
    (ground arith, ground (arith, r.links), (ground (arith, r.links), ground (arith, r.links)))
push_front-Links b (x ∷ xs) {s} r lt new = (
  ground arith,
  ground (arith, r.links.0, r.inside x),
  (
    ground (arith, r.links.0),
    ground (arith, r.links.0),
    Links-frame s.next s.prev (push_front b s).next (push_front b s).prev x head xs r.links.2
        (λ y h. ground (arith, r.inside y))
        (λ y h. ground (arith, r.links.0, r.inside x, r.distinct x)),
  ),
)

pub unlink-Ring :
    (b : ℕ) (xs ys : List ℕ) {s : Bcache} → Ring s (xs ++ (b ∷ ys)) → Ring (unlink b s) (xs ++ ys)
unlink-Ring b xs ys r = record {
  links = unlink-Links b xs ys r;
  distinct = λ y. omega (arith, r.distinct y, count-append y xs (b ∷ ys), count-append y xs ys);
  inside = λ y h. r.inside y (omega (arith, count-append y xs (b ∷ ys), count-append y xs ys));
}

pub push_front-Ring :
    (b : ℕ) (xs : List ℕ) {s : Bcache}
    → Ring s xs
    → b < nbuf
    → count b xs ≡ 0
    → Ring (push_front b s) (b ∷ xs)
push_front-Ring b xs r lt new = record {
  links = push_front-Links b xs r lt new;
  distinct = λ y. ground (arith, r.distinct y);
  inside = λ y h. ground (arith, r.inside y);
}
