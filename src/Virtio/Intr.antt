-- ===== src/Virtio/Intr.antt =====
-- kernel/virtio_disk.c: the interrupt hands back the buffers that the disk is done with.
use proj.Common.{
  ℕ, zero, suc, ◌+◌, ◌%◌, ◌^◌, ◌<◌, ◌≡◌, ◌≢◌, refl, Bool, false, ◌||◌, List, [], ◌∷◌, length, map,
  put_at, ok, ◌==◌, if◌then◌else◌, arith,
}
use proj.Virtio.{num, Vdisk, waits_for_buf, complete, intr_loop, virtio_disk_intr}
use proj.Virtio.Chains.{Chain, Holds, All-Same}

-- From `idx` on, the ring holds these heads, whose status is 0, and it stops there.
abbrev Used : (ring status : ℕ → ℕ) → ℕ → ℕ → List ℕ → Type 0
Used ring status stop idx [] = idx ≡ stop
Used ring status stop idx (id ∷ ids) =
    (idx ≢ stop)
    × (ring (idx % num) ≡ id)
    × (status id ≡ 0)
    × Used ring status stop ((idx + 1) % 2 ^ 16) ids

abbrev pub listed : ℕ → List ℕ → Bool
listed x [] = false
listed x (y ∷ ys) = (x == y) || listed x ys

pub record Finished (cs : List Chain) (ids : List ℕ) (d d' : Vdisk) : Type 0 where
  pub seen : d'.used_idx ≡ d.used_end
  pub on_disk : (x : ℕ) → d'.on_disk x ≡ (if listed x (map d.b ids) then false else d.on_disk x)
  pub chains : Holds cs d'

-- The state after a completion of `id` has been handled.
abbrev pub handled : ℕ → Vdisk → Vdisk
handled id d = record d {
  on_disk = put_at d.on_disk (d.b id) false;
  woken = waits_for_buf (d.b id) ∷ d.woken;
  used_idx = (d.used_idx + 1) % 2 ^ 16;
}

complete-handled :
    (d : Vdisk) (id : ℕ)
    → d.used_ring (d.used_idx % num) ≡ id
    → d.status id ≡ 0
    → complete d ≡ ok (handled id d)
unfolding complete
complete-handled d id r h = rw (r, h) refl

handled-Holds : (cs : List Chain) (id : ℕ) (d : Vdisk) → Holds cs d → Holds cs (handled id d)
handled-Holds cs id d h = record {
  split = h.split;
  described = All-Same cs d _ (λ i l p. (refl, refl, refl)) h.described;
}

intr_loop-Finished :
    (fuel : ℕ) (cs : List Chain) (ids : List ℕ) (d : Vdisk)
    → Holds cs d
    → Used d.used_ring d.status d.used_end d.used_idx ids
    → length ids < fuel
    → (d' : Vdisk) × (intr_loop fuel d ≡ ok d') × Finished cs ids d d'
unfolding intr_loop
intr_loop-Finished zero cs ids d h u f = absurd (omega arith)
intr_loop-Finished (suc fuel) cs [] d h u f =
    (d, ground arith, record { seen = u; on_disk = λ x. refl; chains = h })
intr_loop-Finished (suc fuel) cs (id ∷ ids) d h u f =
    let (d', run, done) =
      intr_loop-Finished fuel cs ids (handled id d) (handled-Holds cs id d h) u.3 (omega arith) in
    let more : (d.used_idx == d.used_end) ≡ false = ground arith in
    (
      d',
      rw (more, complete-handled d id u.1 u.2) run,
      record {
        seen = done.seen;
        on_disk = λ x. rw (done.on_disk x) (ground arith);
        chains = done.chains;
      },
    )

-- In a state where the chains describe their requests, and the used ring shows fewer than 2 ^ 16
-- heads, all with status 0, `virtio_disk_intr` returns: it has seen them all, the buffers of these
-- heads are back from the disk, those of no other, and the chains describe their requests still.
pub virtio_disk_intr-Finished :
    (cs : List Chain) (ids : List ℕ) (d : Vdisk)
    → Holds cs d
    → Used d.used_ring d.status d.used_end d.used_idx ids
    → length ids < 2 ^ 16
    → (d' : Vdisk) × (virtio_disk_intr d ≡ ok d') × Finished cs ids d d'
unfolding virtio_disk_intr
virtio_disk_intr-Finished cs ids d h u l = intr_loop-Finished (2 ^ 16) cs ids d h u l
