-- ===== src/Virtio/Start.antt =====
-- kernel/virtio_disk.c: how a request begins.
use proj.Common.{
  ℕ, ◌≤◌, ◌<◌, ◌≡◌, ◌≢◌, refl, ap, ◌⊎◌, inl, inr, Bool, true, none, some, List, [], ◌∷◌, length,
  count, ok, arith,
}
use proj.Virtio.{num, Vdisk, submit, start_with, rw_start}
use proj.Virtio.Descs.{taken, Restored, alloc3_desc-cases}
use proj.Virtio.Chains.{Chain, members, Holds, All-Same}
use proj.Virtio.Busy.{busy}

abbrev pub Started : List Chain → ℕ → ℕ → Bool → Vdisk → Type 0
Started cs b blockno write d =
    (c : Chain) × (d' : Vdisk) × (c.buf ≡ b)
    × (c.blockno ≡ blockno)
    × (c.write ≡ write)
    × (rw_start b blockno write d ≡ ok (some (c.head ∷ (c.body ∷ (c.tail ∷ []))), d'))
    × Holds (c ∷ cs) d'

abbrev pub Sleeps : List Chain → ℕ → ℕ → Bool → Vdisk → Type 0
Sleeps cs b blockno write d =
    (d' : Vdisk) × (rw_start b blockno write d ≡ ok (none, d')) × Holds cs d' × (2 ≤ length cs)

Restored-Holds : (cs : List Chain) (d d' : Vdisk) → Holds cs d → Restored d d' → Holds cs d'
Restored-Holds cs d d' h r = record {
  split = rw r.free h.split;
  described =
      All-Same cs d d'
        (λ i l p. (r.desc i (ground (arith, h.split i)), ap (λ f. f i) r.ops, ap (λ f. f i) r.b))
        h.described;
}

not_used :
    (cs : List Chain) (d : Vdisk) (i : ℕ)
    → Holds cs d
    → i < num
    → d.free i ≡ true
    → count i (members cs) ≡ 0
not_used cs d i h l e = ground (arith, h.split i)

-- The request of `submit` on three different free descriptors, beside those that are there.
pub submit-Holds :
    (cs : List Chain) (d : Vdisk) (c : Chain)
    → Holds cs d
    → (c.head < num) × (c.body < num) × (c.tail < num)
    → (d.free c.head ≡ true) × (d.free c.body ≡ true) × (d.free c.tail ≡ true)
    → (c.head ≢ c.body) × (c.head ≢ c.tail) × (c.body ≢ c.tail)
    → Holds (c ∷ cs) (
        submit c.buf c.blockno c.write c.head c.body c.tail
          (taken c.tail (taken c.body (taken c.head d))))
unfolding submit
submit-Holds cs d c h l f n = record {
  split = λ i m. ground (arith, h.split i);
  described = (
    record {
      at_head = ground arith;
      at_body = ground arith;
      at_tail = ground arith;
      command = ground arith;
      buffer = ground arith;
      in_range = l;
    },
    All-Same cs d _
        (λ i k p. (
          ground (arith, not_used cs d c.head h, not_used cs d c.body h, not_used cs d c.tail h),
          ground (arith, not_used cs d c.head h),
          ground (arith, not_used cs d c.head h),
        ))
        h.described,
  );
}

-- Where every descriptor is free or belongs once to a chain, and the chains describe their
-- requests, `virtio_disk_rw` adds a chain that describes its own request, or it sleeps; in both
-- cases the same holds afterwards. It sleeps only if two requests are there.
pub rw_start-Holds :
    (cs : List Chain) (b blockno : ℕ) (write : Bool) (d : Vdisk)
    → Holds cs d
    → Started cs b blockno write d ⊎ Sleeps cs b blockno write d
unfolding rw_start start_with
rw_start-Holds cs b blockno write d h = elim (alloc3_desc-cases d) [
  | inl (d', a, r, f) ↦ inr (d', rw a refl, Restored-Holds cs d d' h r, busy cs d h f)
  | inr (i, j, k, l, m, n, e, f, g, p, q, r, a) ↦
      let c : Chain = record {
        head = i;
        body = j;
        tail = k;
        buf = b;
        blockno = blockno;
        write = write;
      } in
      inl (
        c,
        submit b blockno write i j k (taken k (taken j (taken i d))),
        refl,
        refl,
        refl,
        rw a refl,
        submit-Holds cs d c h (l, m, n) (e, f, g) (p, q, r),
      )
]
