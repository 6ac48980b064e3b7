-- ===== src/Usercopy.antt =====
-- kernel/vm.c: the copies between the kernel and a user's memory. `bytes` is physical memory, byte
-- by byte, and `m` the memory of the page tables, in which the copies write nothing: no page that a
-- user can reach is part of a table.
pub mod Pages
pub mod In
pub mod Out
pub mod Str
use proj.Common.{
  ℕ, zero, suc, ◌+◌, ◌-◌, ◌*◌, ◌/◌, ◌%◌, ◌^◌, min, Bool, true, false, not, ◌&&◌, List, [], ◌∷◌, Run,
  ok, blocked, ◌>>=◌, ◌==◌, ltb, leb, if◌then◌else◌,
}
use proj.Memory.{pgsize, pground_down}
use proj.Kalloc.{Machine}
use proj.Vm.{walkaddr}

-- What `walkaddr` returns for each address in a table.
abbrev pub Table : Type 0
Table = ℕ → Run ℕ

abbrev pub Bytes : Type 0
Bytes = ℕ → ℕ

-- `memmove` of `n` bytes from `s` in `src` to `d` in `dst`, which do not overlap.
abbrev pub moved : Bytes → ℕ → Bytes → ℕ → ℕ → Bytes
moved dst d src s n a = if leb d a && ltb a (d + n) then src (s + (a - d)) else dst a

-- `n`: the bytes up to the end of the page, or those that are left.
abbrev pub part : ℕ → ℕ → ℕ
part va len = min (pgsize - (va - pground_down va)) len

-- `va0 + PGSIZE`
abbrev pub next_page : ℕ → ℕ
next_page va = (pground_down va + pgsize) % 2 ^ 64

-- The loop of `copyout`: -1 is `false`.
unfoldable pub copyout_loop : ℕ → Table → ℕ → Bytes → ℕ → ℕ → Bytes → Run (Bool × Bytes)
copyout_loop zero table dstva src s len bytes = blocked
copyout_loop (suc fuel) table dstva src s len bytes =
    let n = part dstva len in
    let turn = table (pground_down dstva) >>= λ pa0.
    (let to = pa0 + (dstva - pground_down dstva) in
      let rest =
        copyout_loop fuel table (next_page dstva) src (s + n) (len - n) (moved bytes to src s n) in
      if pa0 == 0 then ok (false, bytes) else rest) in
    if ltb 0 len then turn else ok (true, bytes)

-- A turn passes at least one byte.
unfoldable pub copyout : ℕ → ℕ → Machine → ℕ → Bytes → ℕ → ℕ → Bytes → Run (Bool × Bytes)
copyout id pagetable m dstva src s len bytes =
    copyout_loop (suc len) (λ va. walkaddr id pagetable va m) dstva src s len bytes

-- The loop of `copyin`, with what it has copied to `dst`.
unfoldable pub copyin_loop : ℕ → Table → Bytes → ℕ → ℕ → ℕ → Bytes → Run (Bool × Bytes)
copyin_loop zero table dst d srcva len bytes = blocked
copyin_loop (suc fuel) table dst d srcva len bytes =
    let n = part srcva len in
    let turn = table (pground_down srcva) >>= λ pa0.
    (let from = pa0 + (srcva - pground_down srcva) in
      let rest =
        copyin_loop fuel table (moved dst d bytes from n) (d + n) (next_page srcva) (len - n)
          bytes in
      if pa0 == 0 then ok (false, dst) else rest) in
    if ltb 0 len then turn else ok (true, dst)

unfoldable pub copyin : ℕ → ℕ → Machine → Bytes → ℕ → ℕ → ℕ → Bytes → Run (Bool × Bytes)
copyin id pagetable m dst d srcva len bytes =
    copyin_loop (suc len) (λ va. walkaddr id pagetable va m) dst d srcva len bytes

-- The inner loop of `copyinstr` over the `n` bytes from `p`: whether it met the NUL, and `dst`. It
-- passes `n` bytes if it did not.
unfoldable pub copy_until_null : ℕ → Bytes → ℕ → ℕ → Bytes → Bool × Bytes
copy_until_null zero dst d p bytes = (false, dst)
copy_until_null (suc n) dst d p bytes =
    let kept : Bool × Bytes = (true, λ a. if a == d then 0 else dst a) in
    let rest = copy_until_null n (λ a. if a == d then bytes p else dst a) (d + 1) (p + 1) bytes in
    if bytes p == 0 then kept else rest

-- The outer loop, `max` bytes from its end; when it is left, `got_null` tells the result.
unfoldable pub copyinstr_loop : ℕ → Table → Bytes → ℕ → ℕ → ℕ → Bytes → Run (Bool × Bytes)
copyinstr_loop zero table dst d srcva max bytes = blocked
copyinstr_loop (suc fuel) table dst d srcva max bytes =
    let n = part srcva max in
    let turn = table (pground_down srcva) >>= λ pa0.
    (let q = copy_until_null n dst d (pa0 + (srcva - pground_down srcva)) bytes in
      let rest = copyinstr_loop fuel table q.1 (d + n) (next_page srcva) (max - n) bytes in
      if pa0 == 0 then ok (false, dst) else if q.0 then ok (true, q.1) else rest) in
    if ltb 0 max then turn else ok (false, dst)

unfoldable pub copyinstr : ℕ → ℕ → Machine → Bytes → ℕ → ℕ → ℕ → Bytes → Run (Bool × Bytes)
copyinstr id pagetable m dst d srcva max bytes =
    copyinstr_loop (suc max) (λ va. walkaddr id pagetable va m) dst d srcva max bytes
