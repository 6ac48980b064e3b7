-- ===== src/Virtio/End.antt =====
-- kernel/virtio_disk.c: how a request ends.
use proj.Common.{
  ℕ, suc, ◌+◌, ◌%◌, ◌<◌, ◌≡◌, ◌≢◌, refl, inl, inr, true, false, List, [], ◌∷◌, ◌++◌, All, count,
  put_at, ok, ◌==◌, if◌then◌else◌, arith, Bool-cases,
}
use proj.Virtio.{num, f_next, Vdisk, Desc, free_chain, rw_end}
use proj.Virtio.Descs.{given_back, free_desc-taken}
use proj.Virtio.Chains.{Chain, members, Describes, Holds, All-Same}

-- What the end of a request leaves.
abbrev pub ended : Chain → Vdisk → Vdisk
ended c d =
    given_back c.tail (given_back c.body (given_back c.head (record d { b = put_at d.b c.head 0 })))

free_chain-step :
    (fuel i : ℕ) (d : Vdisk) (e : Desc)
    → i < num
    → d.free i ≡ false
    → d.desc i ≡ e
    → free_chain (suc fuel) i d ≡ (
        if e.flags % 2 == f_next
        then free_chain fuel e.next (given_back i d)
        else ok (given_back i d))
unfolding free_chain
free_chain-step fuel i d e l f h = rw (free_desc-taken i d l f, h) refl

free_chain-ended :
    (c : Chain) (d : Vdisk)
    → Describes d c
    → (d.free c.head ≡ false) × (d.free c.body ≡ false) × (d.free c.tail ≡ false)
    → (c.head ≢ c.body) × (c.head ≢ c.tail) × (c.body ≢ c.tail)
    → free_chain num c.head (record d { b = put_at d.b c.head 0 }) ≡ ok (ended c d)
free_chain-ended c d h f n =
    let l = h.in_range in
    let d0 : Vdisk = record d { b = put_at d.b c.head 0 } in
    let d1 = given_back c.head d0 in
    let d2 = given_back c.body d1 in
    let first = free_chain-step 7 c.head d0 _ l.0 f.0 h.at_head in
    let second = free_chain-step 6 c.body d1 (d.desc c.body) l.1 (ground arith) (ground arith) in
    let third = free_chain-step 5 c.tail d2 (d.desc c.tail) l.2 (ground arith) (ground arith) in
    elim (Bool-cases c.write) [
      | inl w ↦ rw (first, second, h.at_body, w, third, h.at_tail) refl
      | inr w ↦ rw (first, second, h.at_body, w, third, h.at_tail) refl
    ]

members-append :
    (i : ℕ) (cs es : List Chain)
    → count i (members (cs ++ es)) ≡ count i (members cs) + count i (members es)
members-append i [] es = omega arith
members-append i (c ∷ cs) es = omega (arith, members-append i cs es)

pub All-before :
    (cs : List Chain) (c : Chain) (es : List Chain) (d : Vdisk)
    → All (λ x. Describes d x) (cs ++ (c ∷ es))
    → All (λ x. Describes d x) (cs ++ es) × Describes d c
All-before [] c es d h = (h.1, h.0)
All-before (x ∷ cs) c es d h = let rest = All-before cs c es d h.1 in ((h.0, rest.0), rest.1)

-- In such a state, and when the disk is done with the buffer of a request, `virtio_disk_rw` returns
-- without a panic: the three descriptors of that request are free, and the state is such a one for
-- the other requests.
pub rw_end-Holds :
    (before : List Chain) (c : Chain) (after : List Chain) (d : Vdisk)
    → Holds (before ++ (c ∷ after)) d
    → d.on_disk c.buf ≡ false
    → (d' : Vdisk) × (rw_end c.buf c.head d ≡ ok d')
      × Holds (before ++ after) d'
      × (d'.free c.head ≡ true)
      × (d'.free c.body ≡ true)
      × (d'.free c.tail ≡ true)
unfolding rw_end
rw_end-Holds before c after d h done =
    let own = All-before before c after d h.described in
    let l = own.1.in_range in
    let counts : (i : ℕ)
        → i < num
        → (if d.free i then 1 else 0)
            + count i (members (before ++ after))
            + count i (c.head ∷ (c.body ∷ (c.tail ∷ [])))
          ≡ 1 =
      λ i k.
        ground
          (arith, h.split i, members-append i before (c ∷ after), members-append i before after) in
    (
      ended c d,
      rw done (
          free_chain-ended c d own.1
            (
              ground (arith, counts c.head),
              ground (arith, counts c.body),
              ground (arith, counts c.tail),
            )
            (
              ground (arith, counts c.head),
              ground (arith, counts c.head),
              ground (arith, counts c.body),
            )),
      record {
        split = λ i k. ground (arith, counts i k);
        described =
            All-Same (before ++ after) d _
              (λ i k p. (
                ground (arith, counts i k),
                ground (arith, counts i k),
                ground (arith, counts i k),
              ))
              own.0;
      },
      ground arith,
      ground arith,
      ground arith,
    )
