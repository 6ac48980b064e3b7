-- ===== src/Virtio/Chains.antt =====
-- kernel/virtio_disk.c: every descriptor is free or belongs to one request, and the requests keep
-- theirs.
use proj.Common.{
  ℕ, ◌+◌, ◌*◌, ◌%◌, ◌^◌, ◌<◌, ◌≡◌, Bool, List, [], ◌∷◌, All, count, if◌then◌else◌, arith,
}
use proj.Virtio.{num, Vdisk, op, data_of, status_of}

-- A request that the disk works on: its three descriptors, and what was asked for.
pub record Chain : Type 0 where
  pub head : ℕ
  pub body : ℕ
  pub tail : ℕ
  pub buf : ℕ
  pub blockno : ℕ
  pub write : Bool

abbrev pub members : List Chain → List ℕ
members [] = []
members (c ∷ cs) = c.head ∷ (c.body ∷ (c.tail ∷ members cs))

-- The descriptors of a chain describe its request, and are in range.
pub record Describes (d : Vdisk) (c : Chain) : Type 0 where
  pub at_head : d.desc c.head ≡ record { addr = op c.head; len = 16; flags = 1; next = c.body }
  pub at_body :
      d.desc c.body
      ≡ record { addr = data_of c.buf; len = 1024; flags = if c.write then 1 else 3; next = c.tail }
  pub at_tail : d.desc c.tail ≡ record { addr = status_of c.head; len = 1; flags = 2; next = 0 }
  pub command :
      d.ops c.head
      ≡ record { kind = if c.write then 1 else 0; reserved = 0; sector = c.blockno * 2 % 2 ^ 32 }
  pub buffer : d.b c.head ≡ c.buf
  pub in_range : (c.head < num) × (c.body < num) × (c.tail < num)

pub record Holds (cs : List Chain) (d : Vdisk) : Type 0 where
  pub split : (i : ℕ) → i < num → (if d.free i then 1 else 0) + count i (members cs) ≡ 1
  pub described : All (λ c. Describes d c) cs

-- The same at the descriptors of the chains.
abbrev Same : List Chain → Vdisk → Vdisk → Type 0
Same cs d d' =
    (i : ℕ)
    → i < num
    → 0 < count i (members cs)
    → (d'.desc i ≡ d.desc i) × (d'.ops i ≡ d.ops i) × (d'.b i ≡ d.b i)

Describes-Same :
    (c : Chain) (cs : List Chain) (d d' : Vdisk)
    → Same (c ∷ cs) d d'
    → Describes d c
    → Describes d' c
Describes-Same c cs d d' s h =
    let at_head = s c.head h.in_range.0 (ground arith) in
    let at_body = s c.body h.in_range.1 (ground arith) in
    let at_tail = s c.tail h.in_range.2 (ground arith) in
    record {
      at_head = rw at_head.0 h.at_head;
      at_body = rw at_body.0 h.at_body;
      at_tail = rw at_tail.0 h.at_tail;
      command = rw at_head.1 h.command;
      buffer = rw at_head.2 h.buffer;
      in_range = h.in_range;
    }

pub All-Same :
    (cs : List Chain) (d d' : Vdisk)
    → Same cs d d'
    → All (λ c. Describes d c) cs
    → All (λ c. Describes d' c) cs
All-Same [] d d' s h = tt
All-Same (c ∷ cs) d d' s h =
    (Describes-Same c cs d d' s h.0, All-Same cs d d' (λ i l p. s i l (ground arith)) h.1)
