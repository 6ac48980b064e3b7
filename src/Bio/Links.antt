-- ===== src/Bio/Links.antt =====
-- kernel/bio.c: doubly linked lists.
use proj.Common.{put_at, ℕ, ◌≤◌, ◌<◌, ◌≡◌, ◌∙◌, List, [], ◌∷◌, ◌++◌, count, arith}

-- From `a` the links lead through the list to `c`, and back.
abbrev pub Links : (ℕ → ℕ) → (ℕ → ℕ) → ℕ → List ℕ → ℕ → Type 0
Links n p a [] c = (n a ≡ c) × (p c ≡ a)
Links n p a (x ∷ xs) c = (n a ≡ x) × (p x ≡ a) × Links n p x xs c

-- Links survive changes elsewhere.
pub Links-frame :
    (n p n' p' : ℕ → ℕ) (a c : ℕ) (xs : List ℕ)
    → Links n p a xs c
    → ((y : ℕ) → 0 < count y (a ∷ xs) → n' y ≡ n y)
    → ((y : ℕ) → 0 < count y (c ∷ xs) → p' y ≡ p y)
    → Links n' p' a xs c
Links-frame n p n' p' a c [] l hn hp = (hn a (ground arith) ∙ l.0, hp c (ground arith) ∙ l.1)
Links-frame n p n' p' a c (x ∷ xs) l hn hp = (
  hn a (ground arith) ∙ l.0,
  hp x (ground arith) ∙ l.1,
  Links-frame n p n' p' x c xs l.2 (λ y h. hn y (ground arith)) (λ y h. hp y (ground arith)),
)

pub Links-split :
    (n p : ℕ → ℕ) (a b c : ℕ) (xs ys : List ℕ)
    → Links n p a (xs ++ (b ∷ ys)) c
    → Links n p a xs b × Links n p b ys c
Links-split n p a b c [] ys l = ((l.0, l.1), l.2)
Links-split n p a b c (x ∷ xs) ys l =
    let (l₁, l₂) = Links-split n p x b c xs ys l.2 in ((l.0, l.1, l₁), l₂)

pub Links-join :
    (n p : ℕ → ℕ) (a b c : ℕ) (xs ys : List ℕ)
    → Links n p a xs b
    → Links n p b ys c
    → Links n p a (xs ++ (b ∷ ys)) c
Links-join n p a b c [] ys l r = (l.0, l.1, r)
Links-join n p a b c (x ∷ xs) ys l r = (l.0, l.1, Links-join n p x b c xs ys l.2 r)

-- The last link leads back to a node of the list.
pub prev-mem : (n p : ℕ → ℕ) (a c : ℕ) (xs : List ℕ) → Links n p a xs c → 0 < count (p c) (a ∷ xs)
prev-mem n p a c [] l = ground arith
prev-mem n p a c (x ∷ xs) l = ground (arith, prev-mem n p x c xs l.2)

-- So does the first one lead on.
pub next-mem : (n p : ℕ → ℕ) (a c : ℕ) (xs : List ℕ) → Links n p a xs c → 0 < count (n a) (c ∷ xs)
next-mem n p a c [] l = ground arith
next-mem n p a c (x ∷ xs) l = ground arith

-- The end of a list redirected to another node.
pub Links-redirect_end :
    (n p : ℕ → ℕ) (a b c : ℕ) (xs : List ℕ)
    → Links n p a xs b
    → ((y : ℕ) → count y (a ∷ xs) ≤ 1)
    → count c xs ≡ 0
    → Links (put_at n (p b) c) (put_at p c (p b)) a xs c
Links-redirect_end n p a b c [] l distinct new =
    let e : p b ≡ a = l.1 in (ground arith, ground arith)
Links-redirect_end n p a b c (x ∷ xs) l distinct new =
    let mem = prev-mem n p x b xs l.2 in
    (
      ground (arith, mem, distinct a),
      ground arith,
      Links-redirect_end n p x b c xs l.2 (λ y. omega (arith, distinct y)) (ground arith),
    )
