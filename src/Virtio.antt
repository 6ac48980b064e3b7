-- ===== src/Virtio.antt =====
-- kernel/virtio_disk.c: the descriptors, the requests and the interrupt of the disk driver. Each
-- function runs under the lock of the disk; a function that sleeps is one definition for each side
-- of the sleep. The registers of the device are left out, and what the device writes, the status
-- bytes and the used ring, is in the state that a function is given.
pub mod Descs
pub mod Chains
pub mod Busy
pub mod Start
pub mod End
pub mod Intr
pub mod Runs
use proj.Common.{
  ℕ, zero, suc, ◌+◌, ◌*◌, ◌/◌, ◌%◌, ◌^◌, Bool, true, false, not, Option, none, some, List, [], ◌∷◌,
  ◌++◌, get_or, put_at, Run, ok, panic, blocked, ◌>>=◌, ◌>>◌, panic_if, ◌==◌, ltb, if◌then◌else◌,
}
use proj.Fileio.{bsize}

-- NUM
abbrev pub num : ℕ
num = 8

-- VRING_DESC_F_NEXT, VRING_DESC_F_WRITE, VIRTIO_BLK_T_IN, VIRTIO_BLK_T_OUT
abbrev pub f_next : ℕ
f_next = 1

abbrev f_write : ℕ
f_write = 2

abbrev t_in : ℕ
t_in = 0

abbrev t_out : ℕ
t_out = 1

-- What the driver points a descriptor to: nothing, a header of a command, the data of a buffer, a
-- status byte.
pub data Addr : Type 0 where
  null : Addr
  op : ℕ → Addr
  data_of : ℕ → Addr
  status_of : ℕ → Addr

pub record Desc : Type 0 where
  pub addr : Addr
  pub len : ℕ
  pub flags : ℕ
  pub next : ℕ

-- `virtio_blk_req`
pub record Req : Type 0 where
  pub kind : ℕ
  pub reserved : ℕ
  pub sector : ℕ

-- What sleepers wait for: `&disk.free[0]`, or a buffer.
pub data Waiting : Type 0 where
  waits_for_desc : Waiting
  waits_for_buf : ℕ → Waiting

-- `disk`, with `avail` and `used` opened, `b->disk` of the buffers, and the calls of `wakeup`, the
-- last first. A buffer is a number that is not 0.
pub record Vdisk : Type 0 where
  pub desc : ℕ → Desc
  pub ring : ℕ → ℕ
  pub avail_idx : ℕ
  pub used_ring : ℕ → ℕ
  pub used_end : ℕ
  pub free : ℕ → Bool
  pub used_idx : ℕ
  pub b : ℕ → ℕ
  pub status : ℕ → ℕ
  pub ops : ℕ → Req
  pub on_disk : ℕ → Bool
  pub woken : List Waiting

-- The loop of `alloc_desc` from `i`, with `k` descriptors left.
unfoldable pub alloc_from : ℕ → ℕ → Vdisk → Option ℕ × Vdisk
alloc_from zero i d = (none, d)
alloc_from (suc k) i d =
    let rest = alloc_from k (suc i) d in
    if d.free i then (some i, record d { free = put_at d.free i false }) else rest

unfoldable pub alloc_desc : Vdisk → Option ℕ × Vdisk
alloc_desc d = alloc_from num 0 d

abbrev pub cleared_desc : Desc
cleared_desc = record { addr = null; len = 0; flags = 0; next = 0 }

unfoldable pub free_desc : ℕ → Vdisk → Run Vdisk
free_desc i d = do
  panic_if (not (ltb i num))
  panic_if (d.free i)
  ok (record d {
    desc = put_at d.desc i cleared_desc;
    free = put_at d.free i true;
    woken = waits_for_desc ∷ d.woken;
  })

-- The chain has no more descriptors than the fuel.
unfoldable pub free_chain : ℕ → ℕ → Vdisk → Run Vdisk
free_chain zero i d = blocked
free_chain (suc fuel) i d =
    let next = (d.desc i).next in
    let more = (d.desc i).flags % 2 == f_next in
    free_desc i d >>= λ d'. (let rest = free_chain fuel next d' in if more then rest else ok d')

-- The loop that frees the descriptors that were got.
unfoldable pub free_got : List ℕ → Vdisk → Run Vdisk
free_got [] d = ok d
free_got (i ∷ is) d = free_desc i d >>= free_got is

-- What follows a call of `alloc_desc` in the loop of `alloc3_desc`, with the next turns as `more`.
unfoldable pub keep_got :
    (List ℕ → Vdisk → Run (Option (List ℕ) × Vdisk))
    → List ℕ
    → Option ℕ × Vdisk
    → Run (Option (List ℕ) × Vdisk)
keep_got more got (none, d) = free_got got d >>= λ d'. ok (none, d')
keep_got more got (some i, d) = more (got ++ (i ∷ [])) d

-- The loop of `alloc3_desc`, with `k` turns left and what `idx` holds: `none` for -1.
unfoldable pub alloc_loop : ℕ → List ℕ → Vdisk → Run (Option (List ℕ) × Vdisk)
alloc_loop zero got d = ok (some got, d)
alloc_loop (suc k) got d = keep_got (alloc_loop k) got (alloc_desc d)

unfoldable pub alloc3_desc : Vdisk → Run (Option (List ℕ) × Vdisk)
alloc3_desc d = alloc_loop 3 [] d

-- `virtio_disk_rw` from the header of the command to the wait, with the three descriptors.
unfoldable pub submit : ℕ → ℕ → Bool → ℕ → ℕ → ℕ → Vdisk → Vdisk
submit b blockno write i j k d = record d {
  ops = put_at d.ops i (record {
    kind = if write then t_out else t_in;
    reserved = 0;
    sector = blockno * (bsize / 512) % 2 ^ 32;
  });
  desc =
      put_at
        (put_at (put_at d.desc i (record { addr = op i; len = 16; flags = f_next; next = j })) j
          (record {
            addr = data_of b;
            len = bsize;
            flags = (if write then 0 else f_write) + f_next;
            next = k;
          }))
        k (record { addr = status_of i; len = 1; flags = f_write; next = 0 });
  status = put_at d.status i 255;
  on_disk = put_at d.on_disk b true;
  b = put_at d.b i b;
  ring = put_at d.ring (d.avail_idx % num) i;
  avail_idx = (d.avail_idx + 1) % 2 ^ 16;
}

-- What follows a call of `alloc3_desc` in `virtio_disk_rw`.
unfoldable pub start_with : ℕ → ℕ → Bool → Option (List ℕ) × Vdisk → Run (Option (List ℕ) × Vdisk)
start_with b blockno write (none, d) = ok (none, d)
start_with b blockno write (some is, d) =
    ok (some is, submit b blockno write (get_or is 0 0) (get_or is 1 0) (get_or is 2 0) d)

-- A turn of `virtio_disk_rw` up to its first wait: `none` if it sleeps for a descriptor, else
-- `idx`.
unfoldable pub rw_start : ℕ → ℕ → Bool → Vdisk → Run (Option (List ℕ) × Vdisk)
rw_start b blockno write d = alloc3_desc d >>= start_with b blockno write

-- The end of `virtio_disk_rw`, when `idx[0]` is `i`: it sleeps on while the disk has the buffer.
unfoldable pub rw_end : ℕ → ℕ → Vdisk → Run Vdisk
rw_end b i d = if d.on_disk b then blocked else free_chain num i (record d { b = put_at d.b i 0 })

-- A turn of the loop of `virtio_disk_intr`.
unfoldable pub complete : Vdisk → Run Vdisk
complete d =
    let id = d.used_ring (d.used_idx % num) in
    panic_if (not (d.status id == 0))
    >> ok (record d {
      on_disk = put_at d.on_disk (d.b id) false;
      woken = waits_for_buf (d.b id) ∷ d.woken;
      used_idx = (d.used_idx + 1) % 2 ^ 16;
    })

unfoldable pub intr_loop : ℕ → Vdisk → Run Vdisk
intr_loop zero d = blocked
intr_loop (suc fuel) d =
    let rest = complete d >>= intr_loop fuel in if d.used_idx == d.used_end then ok d else rest

-- The counters differ by less than 2 ^ 16, which is the fuel.
unfoldable pub virtio_disk_intr : Vdisk → Run Vdisk
virtio_disk_intr d = intr_loop (2 ^ 16) d
