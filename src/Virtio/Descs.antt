-- ===== src/Virtio/Descs.antt =====
-- kernel/virtio_disk.c: which descriptors `alloc3_desc` takes.
use proj.Common.{
  ℕ, zero, suc, ◌+◌, ◌≤◌, ◌<◌, ◌≡◌, refl, ap, ◌⊎◌, inl, inr, Bool, true, false, none, some, [], ◌∷◌,
  put_at, ◌≢◌, ok, if◌then◌else◌, arith, fun_ext, Bool-cases,
}
use proj.Virtio.{
  num, Vdisk, waits_for_desc, cleared_desc, alloc_from, alloc_desc, free_desc, free_got, keep_got,
  alloc_loop, alloc3_desc,
}

-- How many of the first `n` descriptors are free.
abbrev pub frees : ℕ → (ℕ → Bool) → ℕ
frees zero f = 0
frees (suc n) f = (if f n then 1 else 0) + frees n f

frees-put_at-above :
    (n i : ℕ) (f : ℕ → Bool) (v : Bool) → n ≤ i → frees n (put_at f i v) ≡ frees n f
frees-put_at-above zero i f v h = refl
frees-put_at-above (suc n) i f v h = ground (arith, frees-put_at-above n i f v)

frees-taken :
    (n i : ℕ) (f : ℕ → Bool) → i < n → f i ≡ true → frees n (put_at f i false) + 1 ≡ frees n f
frees-taken zero i f h e = absurd (omega arith)
frees-taken (suc n) i f h e = ground (arith, frees-taken n i f, frees-put_at-above n i f false)

-- `d` with the descriptor `i` taken.
abbrev pub taken : ℕ → Vdisk → Vdisk
taken i d = record d { free = put_at d.free i false }

alloc_from-cases :
    (k i : ℕ) (d : Vdisk)
    → ((alloc_from k i d ≡ (none, d)) × (frees (i + k) d.free ≡ frees i d.free))
      ⊎ ((j : ℕ) × (j < i + k) × (d.free j ≡ true) × (alloc_from k i d ≡ (some j, taken j d)))
unfolding alloc_from
alloc_from-cases zero i d = inl (refl, ap (λ n. frees n d.free) (omega arith))
alloc_from-cases (suc k) i d = elim (Bool-cases (d.free i)) [
  | inl e ↦ inr (i, omega arith, e, rw e refl)
  | inr e ↦ rw e (elim (alloc_from-cases k (suc i) d) [
    | inl (a, f) ↦ inl (a, ground arith)
    | inr (j, l, g, a) ↦ inr (j, omega arith, g, a)
  ])
]

alloc_desc-cases :
    (d : Vdisk)
    → ((alloc_desc d ≡ (none, d)) × (frees num d.free ≡ 0))
      ⊎ ((j : ℕ) × (j < num) × (d.free j ≡ true) × (alloc_desc d ≡ (some j, taken j d)))
unfolding alloc_desc
alloc_desc-cases d = alloc_from-cases num 0 d

-- What a call of `alloc3_desc` that fails leaves: the descriptors that it took are free again.
pub record Restored (d d' : Vdisk) : Type 0 where
  pub free : d'.free ≡ d.free
  pub desc : (i : ℕ) → d.free i ≡ false → d'.desc i ≡ d.desc i
  pub on_disk : d'.on_disk ≡ d.on_disk
  pub b : d'.b ≡ d.b
  pub ops : d'.ops ≡ d.ops

-- `d` after the taken descriptor `i` has been given back.
abbrev pub given_back : ℕ → Vdisk → Vdisk
given_back i d = record d {
  desc = put_at d.desc i cleared_desc;
  free = put_at d.free i true;
  woken = waits_for_desc ∷ d.woken;
}

pub free_desc-taken :
    (i : ℕ) (d : Vdisk) → i < num → d.free i ≡ false → free_desc i d ≡ ok (given_back i d)
unfolding free_desc
free_desc-taken i d l e = ground arith

put_back : (f : ℕ → Bool) (i : ℕ) → f i ≡ true → put_at (put_at f i false) i true ≡ f
put_back f i e = fun_ext (λ k. ground arith)

put_back_two :
    (f : ℕ → Bool) (i j : ℕ)
    → f i ≡ true
    → put_at f i false j ≡ true
    → put_at (put_at (put_at (put_at f i false) j false) i true) j true ≡ f
put_back_two f i j e g = fun_ext (λ k. ground arith)

Restored-one : (i : ℕ) (d : Vdisk) → d.free i ≡ true → Restored d (given_back i (taken i d))
Restored-one i d e = record {
  free = put_back d.free i e;
  desc = λ k h. ground arith;
  on_disk = refl;
  b = refl;
  ops = refl;
}

Restored-two :
    (i j : ℕ) (d : Vdisk)
    → d.free i ≡ true
    → put_at d.free i false j ≡ true
    → Restored d (given_back j (given_back i (taken j (taken i d))))
Restored-two i j d e g = record {
  free = put_back_two d.free i j e g;
  desc = λ k h. ground arith;
  on_disk = refl;
  b = refl;
  ops = refl;
}

abbrev Fails : Vdisk → Type 0
Fails d = (d' : Vdisk) × (alloc3_desc d ≡ ok (none, d')) × Restored d d' × (frees num d.free < 3)

abbrev Takes : Vdisk → Type 0
Takes d =
    (i : ℕ) × (j : ℕ) × (k : ℕ) × (i < num)
    × (j < num)
    × (k < num)
    × (d.free i ≡ true)
    × (d.free j ≡ true)
    × (d.free k ≡ true)
    × (i ≢ j)
    × (i ≢ k)
    × (j ≢ k)
    × (alloc3_desc d ≡ ok (some (i ∷ (j ∷ (k ∷ []))), taken k (taken j (taken i d))))

-- `alloc3_desc` takes three different free descriptors, or there are fewer and it takes none.
pub alloc3_desc-cases : (d : Vdisk) → Fails d ⊎ Takes d
unfolding alloc3_desc alloc_loop keep_got free_got
alloc3_desc-cases d = elim (alloc_desc-cases d) [
  | inl (a, f) ↦ inl (
    d,
    rw a refl,
    record { free = refl; desc = λ i h. refl; on_disk = refl; b = refl; ops = refl },
    omega arith,
  )
  | inr (i, l, e, a) ↦ elim (alloc_desc-cases (taken i d)) [
    | inl (b, f) ↦ inl (
      given_back i (taken i d),
      rw (a, b, free_desc-taken i (taken i d) l (ground arith)) refl,
      Restored-one i d e,
      omega (arith, frees-taken num i d.free l e),
    )
    | inr (j, m, g, b) ↦ elim (alloc_desc-cases (taken j (taken i d))) [
      | inl (c, f) ↦ inl (
        given_back j (given_back i (taken j (taken i d))),
        rw
            (
              a,
              b,
              c,
              free_desc-taken i (taken j (taken i d)) l (ground arith),
              free_desc-taken j (given_back i (taken j (taken i d))) m (ground arith),
            )
            refl,
        Restored-two i j d e g,
        omega (arith, frees-taken num i d.free l e, frees-taken num j (put_at d.free i false) m g),
      )
      | inr (k, n, h, c) ↦ inr (
        i,
        j,
        k,
        l,
        m,
        n,
        e,
        ground arith,
        ground arith,
        ground arith,
        ground arith,
        ground arith,
        rw (a, b, c) refl,
      )
    ]
  ]
]
