-- ===== src/Memory.antt =====
-- Physical memory and the page arithmetic of kernel/riscv.h and kernel/memlayout.h.
-- Memory is read and written here by 64-bit words, at the addresses of their first bytes.
use proj.Common.{ℕ, ◌+◌, ◌-◌, ◌*◌, ◌/◌, ◌%◌, ◌^◌, ◌&&◌, leb, ltb, ◌==◌, if◌then◌else◌}

abbrev pub Mem : Type 0
Mem = ℕ → ℕ

abbrev pub store : Mem → ℕ → ℕ → Mem
store m p v a = if a == p then v else m a

abbrev pub pgsize : ℕ
pgsize = 4096

-- `x & ~(PGSIZE-1)` clears the low twelve bits.
abbrev pub pground_down : ℕ → ℕ
pground_down a = a / pgsize * pgsize

-- The sum is a uint64.
abbrev pub pground_up : ℕ → ℕ
pground_up sz = (sz + pgsize - 1) % 2 ^ 64 / pgsize * pgsize

abbrev pub kernbase : ℕ
kernbase = 0x80000000

abbrev pub phystop : ℕ
phystop = kernbase + 128 * 1024 * 1024

-- The word of eight bytes `c`.
abbrev pub fill_word : ℕ → ℕ
fill_word c = c * 0x0101010101010101

-- `memset(pa, c, PGSIZE)`
abbrev pub memset_page : Mem → ℕ → ℕ → Mem
memset_page m pa c a = if leb pa a && ltb a (pa + pgsize) then fill_word c else m a
