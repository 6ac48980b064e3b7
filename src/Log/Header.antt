-- ===== src/Log/Header.antt =====
-- kernel/log.c: the header block holds the list of logged blocks.
use proj.Common.{ℕ, ◌+◌, ◌≤◌, ◌≡◌, refl, ◌∙◌, List, [], ◌∷◌, length, arith}
use proj.Log.{Block, set_word, read_blocks, write_blocks}

-- The words before those that the loop writes stay as they are.
write_blocks-below : (i : ℕ) (bs : List ℕ) (h : Block) (w : ℕ) → w ≤ i → write_blocks i bs h w ≡ h w
unfolding write_blocks
write_blocks-below i [] h w le = refl
write_blocks-below i (b ∷ bs) h w le =
    write_blocks-below (i + 1) bs (set_word h (i + 1) b) w (omega arith) ∙ ground arith

read_blocks-write_blocks :
    (i : ℕ) (bs : List ℕ) (h : Block) → read_blocks (length bs) i (write_blocks i bs h) ≡ bs
unfolding read_blocks write_blocks
read_blocks-write_blocks i [] h = refl
read_blocks-write_blocks i (b ∷ bs) h = ground (
  arith,
  read_blocks-write_blocks (i + 1) bs (set_word h (i + 1) b),
  write_blocks-below (i + 1) bs (set_word h (i + 1) b) (i + 1),
)

-- The header block that `write_head` makes of a list of blocks, over the words that were there.
abbrev pub header : List ℕ → Block → Block
header bs h = write_blocks 0 bs (set_word h 0 (length bs))

-- Whatever the header block held before, `read_head` reads from it the number of logged blocks and
-- the list of them that `write_head` wrote.
pub read-header :
    (bs : List ℕ) (h : Block)
    → (header bs h 0 ≡ length bs) × (read_blocks (header bs h 0) 0 (header bs h) ≡ bs)
read-header bs h =
    let n : header bs h 0 ≡ length bs = write_blocks-below 0 bs _ 0 (omega arith) in
    (n, rw n (read_blocks-write_blocks 0 bs (set_word h 0 (length bs))))
