-- ===== src/Proc/Family.antt =====
-- kernel/proc.c: whom `mygrow` changes.
use proj.Common.{
  ℕ, zero, suc, ◌+◌, ◌-◌, ◌%◌, ◌^◌, ◌≤◌, ◌<◌, ◌≡◌, ◌≢◌, ◌⊎◌, inl, inr, refl, subst, sym, ap, ◌∙◌,
  Bool, true, false, Run, ok, ◌>>=◌, >>=-eq-ok, arith, ◌==◌, Bool-cases, ℤ, pos, negsuc,
}
use proj.Kalloc.{Machine}
use proj.Vm.Space.{uvmalloc, uvmdealloc}
use proj.Proc.{Proc, Table, put}
use proj.Proc.Locks.{procs-put, procs-put_ne}
use proj.Proc.Grow.{set_sz, grown, shrunk, growarg, mygrow_loop, mygrow}

value_or {ℓ} : {A : Type ℓ} → A → Run A → A
value_or d (ok x) = x
value_or d _ = d

ok-eq {ℓ} : {A : Type ℓ} (x y : A) → ok x ≡ ok y → x ≡ y
unfolding value_or
ok-eq x y e = ap (value_or x) e

-- At most the size of entry `j` has changed.
abbrev Resized : ℕ → Table → Table → Type 0
Resized j t t' = (t' ≡ t) ⊎ ((sz : ℕ) × (t' ≡ put j (set_sz sz (t.procs j)) t))

grown-Resized : (j : ℕ) (t : Table) (r : ℕ × Machine) → Resized j t (grown j t r).1
grown-Resized j t (sz, m) = elim (Bool-cases (sz == 0)) [
  | inl none_left ↦ inl (rw none_left refl)
  | inr some_left ↦ inr (sz, rw some_left refl)
]

growarg-Resized :
    (end_ id : ℕ) (n : ℤ) (j : ℕ) (t : Table) (m : Machine) (r : Bool × Table × Machine)
    → growarg end_ id n j t m ≡ ok r
    → Resized j t r.1
unfolding growarg
growarg-Resized end_ id (pos zero) j t m r e =
    inr ((t.procs j).sz, sym (ap (λ x. x.1) (ok-eq _ r e)))
growarg-Resized end_ id (pos (suc n)) j t m r e =
    let p = t.procs j in
    let (x, _, h) =
      >>=-eq-ok (uvmalloc end_ id p.pagetable p.sz ((p.sz + suc n) % 2 ^ 64) 4 m)
        (λ y. ok (grown j t y)) e in
    let same : grown j t x ≡ r = ok-eq (grown j t x) r h in
    subst (λ y. Resized j t y.1) same (grown-Resized j t x)
growarg-Resized end_ id (negsuc n) j t m r e =
    let p = t.procs j in
    let (x, _, h) =
      >>=-eq-ok (uvmdealloc end_ id p.pagetable p.sz ((p.sz + 2 ^ 64 - suc n) % 2 ^ 64) m)
        (λ y. ok (shrunk j t y)) e in
    inr (x.0, sym (ap (λ y. y.1) (ok-eq (shrunk j t x) r h)))

fid-set_sz : (sz : ℕ) (p : Proc) → (set_sz sz p).fid ≡ p.fid
unfolding set_sz
fid-set_sz sz p = refl

fid-put :
    (j k : ℕ) (sz : ℕ) (t : Table)
    → ((put j (set_sz sz (t.procs j)) t).procs k).fid ≡ (t.procs k).fid
fid-put j k sz t = elim (Bool-cases (k == j)) [
  | inl here ↦ let e : k ≡ j = ground arith in rw (procs-put, here, e) (fid-set_sz sz (t.procs j))
  | inr other ↦ rw (procs-put, other) refl
]

threads-put : (j : ℕ) (p : Proc) (t : Table) → (put j p t).threads ≡ t.threads
unfolding put
threads-put j p t = refl

Resized-keeps :
    (j : ℕ) (t t' : Table)
    → Resized j t t'
    → (t'.threads ≡ t.threads)
      × ((k : ℕ) → (t'.procs k).fid ≡ (t.procs k).fid)
      × ((k : ℕ) → k ≢ j → t'.procs k ≡ t.procs k)
Resized-keeps j t t' (inl e) = (
  ap (λ (x : Table). x.threads) e,
  λ k. ap (λ (x : Table). (x.procs k).fid) e,
  λ k ne. ap (λ (x : Table). x.procs k) e,
)
Resized-keeps j t t' (inr (sz, e)) = (
  ap (λ (x : Table). x.threads) e ∙ threads-put j _ t,
  λ k. ap (λ (x : Table). (x.procs k).fid) e ∙ fid-put j k sz t,
  λ k ne. ap (λ (x : Table). x.procs k) e ∙ procs-put_ne j k _ t ne,
)

module _ (end_ id : ℕ) (n : ℤ) (me : ℕ) where
  mygrow_loop-related :
      (k i : ℕ) (t : Table) (m : Machine)
      → ((t.procs (t.threads i)).fid == (t.procs me).fid) ≡ true
      → mygrow_loop end_ id n me (suc k) i t m
        ≡ growarg end_ id n (t.threads i) t m >>= λ (_, t', m').
            mygrow_loop end_ id n me k (i + 1) t' m'
  unfolding mygrow_loop
  mygrow_loop-related k i t m e = rw e refl

  mygrow_loop-unrelated :
      (k i : ℕ) (t : Table) (m : Machine)
      → ((t.procs (t.threads i)).fid == (t.procs me).fid) ≡ false
      → mygrow_loop end_ id n me (suc k) i t m ≡ mygrow_loop end_ id n me k (i + 1) t m
  unfolding mygrow_loop
  mygrow_loop-unrelated k i t m e = rw e refl

  mygrow_loop-other :
      (k i j : ℕ) (t : Table) (m : Machine) (r : Table × Machine)
      → mygrow_loop end_ id n me k i t m ≡ ok r
      → ((x : ℕ) → i ≤ x → x < i + k → t.threads x ≡ j → (t.procs j).fid ≢ (t.procs me).fid)
      → r.0.procs j ≡ t.procs j
  unfolding mygrow_loop
  mygrow_loop-other zero i j t m r e out = ap (λ x. x.0.procs j) (sym (ok-eq (t, m) r e))
  mygrow_loop-other (suc k) i j t m r e out =
      elim (Bool-cases ((t.procs (t.threads i)).fid == (t.procs me).fid)) [
        | inl family ↦
            let (x, run, rest) =
              >>=-eq-ok (growarg end_ id n (t.threads i) t m)
                (λ (_, t', m'). mygrow_loop end_ id n me k (i + 1) t' m')
                (sym (mygrow_loop-related k i t m family) ∙ e) in
            let (th, fids, kept) =
              Resized-keeps (t.threads i) t x.1
                (growarg-Resized end_ id n (t.threads i) t m x run) in
            let apart : j ≢ t.threads i = λ at.
              out i (omega arith) (omega arith) (sym at)
                (ap (λ y. (t.procs y).fid) at ∙ ground arith) in
            mygrow_loop-other k (i + 1) j x.1 x.2 r rest (λ y lo hi at. λ same.
              out y (omega arith) (omega arith) (sym (ap (λ f. f y) th) ∙ at)
                (sym (fids j) ∙ same ∙ fids me))
            ∙ kept j apart
        | inr stranger ↦
            mygrow_loop-other k (i + 1) j t m r (sym (mygrow_loop-unrelated k i t m stranger) ∙ e)
              (λ y lo hi at. out y (omega arith) (omega arith) at)
      ]

-- When `mygrow` returns, an entry of the table is as it was if it is not listed among the threads
-- or is of another family than the caller. (So is the caller's own, if it was not started as a
-- thread.)
pub mygrow-other :
    (end_ id : ℕ) (n : ℤ) (me j : ℕ) (t : Table) (m : Machine) (r : Table × Machine)
    → mygrow end_ id n me t m ≡ ok r
    → ((x : ℕ) → x < t.curr_id → t.threads x ≡ j → (t.procs j).fid ≢ (t.procs me).fid)
    → r.0.procs j ≡ t.procs j
unfolding mygrow
mygrow-other end_ id n me j t m r e out =
    mygrow_loop-other end_ id n me t.curr_id 0 j t m r e (λ x lo hi at. out x (omega arith) at)
