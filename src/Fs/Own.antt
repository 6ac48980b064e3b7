-- ===== src/Fs/Own.antt =====
-- kernel/fs.c: the blocks that a file owns.
use proj.Common.{
  ◌≤◌, refl, ℕ, ◌+◌, ◌-◌, ◌<◌, ◌≡◌, ◌≢◌, sym, ◌∙◌, Bool, true, false, arith, ◌==◌, ==_refl, ltb,
  if◌then◌else◌, put_at, Bool-cases, inl, inr,
}
use proj.Fs.{ndirect, nindirect, Disk, Inode}

-- The places where a file keeps the number of a block: the addresses of the inode, the last of
-- which is the indirect block's, and then the numbers in the indirect block.
abbrev pub slot : Inode → Disk → ℕ → ℕ
slot ip d k =
    if ltb k (ndirect + 1)
    then ip.addrs k
    else (if ip.addrs ndirect == 0 then 0 else d.word (ip.addrs ndirect) (k - (ndirect + 1)))

abbrev pub slots : ℕ
slots = ndirect + 1 + nindirect

pub slot-addr : (ip : Inode) (d : Disk) (k : ℕ) → k ≤ ndirect → slot ip d k ≡ ip.addrs k
slot-addr ip d k h = ground arith

pub slot-word :
    (ip : Inode) (d : Disk) (k : ℕ)
    → ip.addrs ndirect ≢ 0
    → slot ip d (ndirect + 1 + k) ≡ d.word (ip.addrs ndirect) k
slot-word ip d k nz = ground arith

-- The blocks at the places `f` are in use, none of them at two places, and block 0 is no file's.
pub record Own (f : ℕ → ℕ) (u : ℕ → Bool) : Type 0 where
  pub zero_used : u 0 ≡ true
  pub in_use : (k : ℕ) → k < slots → u (f k) ≡ true
  pub distinct : (j k : ℕ) → j < slots → k < slots → f j ≢ 0 → f j ≡ f k → j ≡ k

-- The state of a file.
abbrev pub Owns : Inode → Disk → Type 0
Owns ip d = Own (slot ip d) d.used

-- A free block taken for one place.
pub Own-fresh :
    (f f' : ℕ → ℕ) (u : ℕ → Bool) (i b : ℕ)
    → Own f u
    → u b ≡ false
    → ((k : ℕ) → k < slots → f' k ≡ (if k == i then b else f k))
    → Own f' (put_at u b true)
Own-fresh f f' u i b o free e = record {
  zero_used = ground (arith, o.zero_used);
  in_use = λ k h. rw (e k h) (ground (arith, o.in_use k h));
  distinct = λ j k hj hk nz same.
      ground (arith, e j hj, e k hk, o.in_use j hj, o.in_use k hk, o.distinct j k hj hk);
}

pub Own-same :
    (f f' : ℕ → ℕ) (u : ℕ → Bool) → Own f u → ((k : ℕ) → k < slots → f' k ≡ f k) → Own f' u
Own-same f f' u o e = record {
  zero_used = o.zero_used;
  in_use = λ k h. rw (e k h) (o.in_use k h);
  distinct = λ j k hj hk nz same.
      o.distinct j k hj hk (λ z. nz (e j hj ∙ z)) (sym (e j hj) ∙ same ∙ e k hk);
}

-- What stands at byte `j` of the block at a place: 0 where there is no block.
abbrev pub content : (ℕ → ℕ) → (ℕ → ℕ → ℕ) → ℕ → ℕ → ℕ
content f g k j = if f k == 0 then 0 else g (f k) j

-- A zeroed block for a place that had none leaves the contents as they are.
pub content-fresh :
    (f f' : ℕ → ℕ) (u : ℕ → Bool) (g : ℕ → ℕ → ℕ) (i b : ℕ)
    → Own f u
    → u b ≡ false
    → f i ≡ 0
    → ((k : ℕ) → k < slots → f' k ≡ (if k == i then b else f k))
    → (k j : ℕ) → k < slots
    → content f' (put_at g b (λ n. 0)) k j ≡ content f g k j
content-fresh f f' u g i b o free z e k j h = elim (Bool-cases (k == i)) [
  | inl here ↦
      let same : f k ≡ 0 = ground (arith, z) in
      let new : f' k ≡ b = ground (arith, e k h) in rw (same, new, ==_refl b) (ground arith)
  | inr there ↦
      let same : f' k ≡ f k = ground (arith, e k h) in
      let off : (f k == b) ≡ false = ground (arith, o.in_use k h) in rw (same, off) refl
]
