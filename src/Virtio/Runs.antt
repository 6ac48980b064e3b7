-- ===== src/Virtio/Runs.antt =====
-- kernel/virtio_disk.c: requests, answers of the device and interrupts in any order.
use proj.Common.{
  ℕ, zero, suc, ◌+◌, ◌%◌, ◌^◌, ◌<◌, ◌≡◌, ◌⊎◌, inl, inr, refl, sym, ap, ◌∙◌, subst, Bool, true, none,
  some, List, [], ◌∷◌, ◌++◌, count, ok, blocked, >>=-eq-ok, ok-injective, ◌==◌, if◌then◌else◌,
  arith, Bool-cases,
}
use proj.Virtio.{num, Vdisk, rw_start, rw_end, complete, intr_loop, virtio_disk_intr}
use proj.Virtio.Chains.{Chain, members, Describes, Holds, All-Same}
use proj.Virtio.End.{All-before, rw_end-Holds}
use proj.Virtio.Start.{rw_start-Holds}

-- Descriptors, commands and the buffers of requests are kept, as they are where the device writes the
-- status bytes and the used ring, and in an interrupt.
pub record Answered (d d' : Vdisk) : Type 0 where
  pub desc : d'.desc ≡ d.desc
  pub free : d'.free ≡ d.free
  pub ops : d'.ops ≡ d.ops
  pub b : d'.b ≡ d.b

-- The driver with the requests that it has begun and not ended.
pub data Reach : List Chain → Vdisk → Type 0 where
  initially : {d : Vdisk} → ((i : ℕ) → i < num → d.free i ≡ true) → Reach [] d
  begins :
      {cs : List Chain} {d d' : Vdisk} (c : Chain)
      → Reach cs d
      → rw_start c.buf c.blockno c.write d ≡ ok (some (c.head ∷ (c.body ∷ (c.tail ∷ []))), d')
      → Reach (c ∷ cs) d'
  sleeps :
      {cs : List Chain} {d d' : Vdisk} (b blockno : ℕ) (write : Bool)
      → Reach cs d
      → rw_start b blockno write d ≡ ok (none, d')
      → Reach cs d'
  answers : {cs : List Chain} {d d' : Vdisk} → Reach cs d → Answered d d' → Reach cs d'
  interrupts :
      {cs : List Chain} {d d' : Vdisk} → Reach cs d → virtio_disk_intr d ≡ ok d' → Reach cs d'
  ends :
      {cs es : List Chain} {d d' : Vdisk} (before : List Chain) (c : Chain) (after : List Chain)
      → es ≡ before ++ (c ∷ after)
      → cs ≡ before ++ after
      → Reach es d
      → rw_end c.buf c.head d ≡ ok d'
      → Reach cs d'

Answered-Holds : (cs : List Chain) (d d' : Vdisk) → Holds cs d → Answered d d' → Holds cs d'
Answered-Holds cs d d' h a = record {
  split = rw a.free h.split;
  described =
      All-Same cs d d' (λ i l p. (ap (λ f. f i) a.desc, ap (λ f. f i) a.ops, ap (λ f. f i) a.b))
        h.described;
}

complete-Answered : (d d' : Vdisk) → complete d ≡ ok d' → Answered d d'
unfolding complete
complete-Answered d d' e = elim (Bool-cases (d.status (d.used_ring (d.used_idx % num)) == 0)) [
  | inl z ↦
      subst (λ x. Answered d x) (ok-injective _ d' (rw z at e))
        (record { desc = refl; free = refl; ops = refl; b = refl })
  | inr z ↦ let stuck = rw z at e in cc
]

intr_loop-Answered : (fuel : ℕ) (d d' : Vdisk) → intr_loop fuel d ≡ ok d' → Answered d d'
unfolding intr_loop
intr_loop-Answered zero d d' e = cc
intr_loop-Answered (suc fuel) d d' e = elim (Bool-cases (d.used_idx == d.used_end)) [
  | inl z ↦
      subst (λ x. Answered d x) (ok-injective d d' (rw z at e))
        (record { desc = refl; free = refl; ops = refl; b = refl })
  | inr z ↦
      let (m, one, rest) = >>=-eq-ok (complete d) (intr_loop fuel) (rw z at e) in
      let a = complete-Answered d m one in
      let b = intr_loop-Answered fuel m d' rest in
      record { desc = b.desc ∙ a.desc; free = b.free ∙ a.free; ops = b.ops ∙ a.ops; b = b.b ∙ a.b }
]

intr-Answered : (d d' : Vdisk) → virtio_disk_intr d ≡ ok d' → Answered d d'
unfolding virtio_disk_intr
intr-Answered d d' e = intr_loop-Answered (2 ^ 16) d d' e

rebuilt :
    (c e : Chain)
    → c.head ≡ e.head
    → c.body ≡ e.body
    → c.tail ≡ e.tail
    → c.buf ≡ e.buf
    → c.blockno ≡ e.blockno
    → c.write ≡ e.write
    → c ≡ e
rebuilt c e h b t u n w = ground arith

begins-Holds :
    (cs : List Chain) (d d' : Vdisk) (c : Chain)
    → Holds cs d
    → rw_start c.buf c.blockno c.write d ≡ ok (some (c.head ∷ (c.body ∷ (c.tail ∷ []))), d')
    → Holds (c ∷ cs) d'
begins-Holds cs d d' c h e = elim (rw_start-Holds cs c.buf c.blockno c.write d h) [
  | inl (x, m, b, n, w, run, kept) ↦
      let same = ok-injective _ _ (sym run ∙ e) in
      let state : m ≡ d' = ap (λ p. p.1) same in
      let chain : x ≡ c = rebuilt x c (cc) (cc) (cc) b n w in
      let renamed : Holds (c ∷ cs) m = subst (λ x. Holds (x ∷ cs) m) chain kept in
      subst (λ x. Holds (c ∷ cs) x) state renamed
  | inr (m, run, kept, two) ↦ let same = sym run ∙ e in cc
]

sleeps-Holds :
    (cs : List Chain) (d d' : Vdisk) (b blockno : ℕ) (write : Bool)
    → Holds cs d
    → rw_start b blockno write d ≡ ok (none, d')
    → Holds cs d'
sleeps-Holds cs d d' b blockno write h e = elim (rw_start-Holds cs b blockno write d h) [
  | inl (x, m, _, _, _, run, kept) ↦ let same = sym run ∙ e in cc
  | inr (m, run, kept, two) ↦
      subst (λ x. Holds cs x) (ap (λ p. p.1) (ok-injective _ _ (sym run ∙ e))) kept
]

waiting : (c : Chain) (d d' : Vdisk) → d.on_disk c.buf ≡ true → rw_end c.buf c.head d ≡ ok d' → ⊥
unfolding rw_end
waiting c d d' w e = let stuck = rw w at e in let z : ok d' ≡ blocked = sym stuck in ground arith

ends-Holds :
    (before : List Chain) (c : Chain) (after : List Chain) (d d' : Vdisk)
    → Holds (before ++ (c ∷ after)) d
    → rw_end c.buf c.head d ≡ ok d'
    → Holds (before ++ after) d'
ends-Holds before c after d d' h e = elim (Bool-cases (d.on_disk c.buf)) [
  | inl waits ↦ absurd (waiting c d d' waits e)
  | inr done ↦
      let (m, run, kept, f, g, k) = rw_end-Holds before c after d h done in
      subst (λ x. Holds (before ++ after) x) (ok-injective _ _ (sym run ∙ e)) kept
]

Reach-Holds : {cs : List Chain} {d : Vdisk} → Reach cs d → Holds cs d
Reach-Holds (initially f) = record { split = λ i l. ground (arith, f i); described = tt }
Reach-Holds (begins c r e) = begins-Holds _ _ _ c (Reach-Holds r) e
Reach-Holds (sleeps b blockno write r e) = sleeps-Holds _ _ _ b blockno write (Reach-Holds r) e
Reach-Holds (answers r a) = Answered-Holds _ _ _ (Reach-Holds r) a
Reach-Holds (interrupts r e) = Answered-Holds _ _ _ (Reach-Holds r) (intr-Answered _ _ e)
Reach-Holds (ends before c after e f r run) =
    rw (f) (ends-Holds before c after _ _ (rw e at (Reach-Holds r)) run)

-- From a state where all descriptors are free, whatever requests begin, sleep for descriptors, are
-- answered and end, in whatever order, with interrupts between them: every descriptor is free or
-- belongs to one request, once. The descriptors of a request that has begun describe it, and when
-- the disk is done with its buffer, it ends: without a panic, and its three descriptors are free.
pub driver_safe :
    (before : List Chain) (c : Chain) (after : List Chain) (d : Vdisk)
    → Reach (before ++ (c ∷ after)) d
    → ((i : ℕ)
        → i < num
        → (if d.free i then 1 else 0) + count i (members (before ++ (c ∷ after))) ≡ 1)
      × Describes d c
      × ((d.on_disk c.buf ≡ true)
          ⊎ ((d' : Vdisk) × (rw_end c.buf c.head d ≡ ok d')
              × Reach (before ++ after) d'
              × (d'.free c.head ≡ true)
              × (d'.free c.body ≡ true)
              × (d'.free c.tail ≡ true)))
driver_safe before c after d r =
    let h = Reach-Holds r in
    (
      h.split,
      (All-before before c after d h.described).1,
      elim (Bool-cases (d.on_disk c.buf)) [
        | inl waits ↦ inl waits
        | inr done ↦
            let (d', run, kept, f, g, k) = rw_end-Holds before c after d h done in
            inr (d', run, ends before c after refl refl r run, f, g, k)
      ],
    )
