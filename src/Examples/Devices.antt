-- ===== src/Examples/Devices.antt =====
-- The drivers of devices at concrete states.
use proj.Common.{ℕ, ◌+◌, ◌<◌, count, if◌then◌else◌, ◌≡◌, ◌⊎◌, refl, true, false, [], ◌∷◌, ok, arith}
use proj.Virtio.{
  rw_start, alloc3_desc, alloc_loop, keep_got, alloc_desc, alloc_from, start_with, intr_loop,
  complete, Vdisk, cleared_desc, submit, rw_end, virtio_disk_intr,
}
use proj.Virtio.Descs.{taken}
use proj.Virtio.Chains.{Describes, Chain, Holds, All-Same}
use proj.Virtio.Start.{Started, Sleeps, submit-Holds, rw_start-Holds}
use proj.Virtio.Runs.{Reach, initially, begins, answers, interrupts, driver_safe}
use proj.Virtio.Intr.{Finished, handled, virtio_disk_intr-Finished}

abbrev idle : Vdisk
idle = record {
  desc = λ i. cleared_desc;
  ring = λ i. 0;
  avail_idx = 0;
  used_ring = λ i. 0;
  used_end = 0;
  free = λ i. true;
  used_idx = 0;
  b = λ i. 0;
  status = λ i. 0;
  ops = λ i. record { kind = 0; reserved = 0; sector = 0 };
  on_disk = λ x. false;
  woken = [];
}

idle-Holds : Holds [] idle
idle-Holds = record { split = λ i l. refl; described = tt }

rw_start_example : Started [] 5 7 true idle ⊎ Sleeps [] 5 7 true idle
rw_start_example = rw_start-Holds [] 5 7 true idle idle-Holds

abbrev request : Chain
request = record { head = 0; body = 1; tail = 2; buf = 5; blockno = 7; write = true }

abbrev requested : Vdisk
requested = submit 5 7 true 0 1 2 (taken 2 (taken 1 (taken 0 idle)))

requested-Holds : Holds (request ∷ []) requested
requested-Holds =
    submit-Holds [] idle request idle-Holds (omega arith) (refl, refl, refl) (omega arith)

-- The device has written the status and the used ring.
abbrev answered : Vdisk
answered = record requested { status = λ i. 0; used_ring = λ i. 0; used_end = 1 }

answered-Holds : Holds (request ∷ []) answered
answered-Holds = record {
  split = requested-Holds.split;
  described =
      All-Same (request ∷ []) requested answered (λ i l p. (refl, refl, refl))
        requested-Holds.described;
}

virtio_disk_intr_example :
    (d' : Vdisk) × (virtio_disk_intr answered ≡ ok d')
    × Finished (request ∷ []) (0 ∷ []) answered d'
virtio_disk_intr_example =
    virtio_disk_intr-Finished (request ∷ []) (0 ∷ []) answered answered-Holds
      (unfold submit in (omega arith, refl, refl, refl)) (omega arith)

abbrev handed_back : Vdisk
handed_back = handled 0 answered

began : Reach (request ∷ []) requested
unfolding rw_start alloc3_desc alloc_loop keep_got alloc_desc alloc_from start_with
began = begins request (initially (λ i l. refl)) refl

interrupted : virtio_disk_intr answered ≡ ok handed_back
unfolding virtio_disk_intr intr_loop complete submit
interrupted = refl

driver_safe_example :
    ((i : ℕ) → i < 8 → (if handed_back.free i then 1 else 0) + count i (0 ∷ (1 ∷ (2 ∷ []))) ≡ 1)
    × Describes handed_back request
    × ((handed_back.on_disk 5 ≡ true)
        ⊎ ((d' : Vdisk) × (rw_end 5 0 handed_back ≡ ok d')
            × Reach [] d'
            × (d'.free 0 ≡ true)
            × (d'.free 1 ≡ true)
            × (d'.free 2 ≡ true)))
driver_safe_example = driver_safe [] request [] handed_back (
    interrupts (answers began (record { desc = refl; free = refl; ops = refl; b = refl }))
      interrupted)
