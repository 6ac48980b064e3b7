-- ===== src/Proc/Grow.antt =====
-- kernel/proc.c: `growarg`, `mygrow` and `growproc`, over the process table and physical memory.
use proj.Common.{
  ℕ, zero, suc, ◌+◌, ◌-◌, ◌%◌, ◌^◌, Bool, true, false, Run, ok, ◌>>=◌, ◌==◌, if◌then◌else◌, ℤ, pos,
  negsuc,
}
use proj.Kalloc.{Machine}
use proj.Vm.Space.{uvmalloc, uvmdealloc}
use proj.Proc.{Proc, Table, put}

unfoldable pub set_sz : ℕ → Proc → Proc
set_sz sz p = record p { sz = sz }

-- The two branches of `growarg` that change the size, from what the page tables return.
abbrev pub grown : ℕ → Table → ℕ × Machine → Bool × Table × Machine
grown i t (sz, m) = if sz == 0 then (false, t, m) else (true, put i (set_sz sz (t.procs i)) t, m)

abbrev pub shrunk : ℕ → Table → ℕ × Machine → Bool × Table × Machine
shrunk i t (sz, m) = (true, put i (set_sz sz (t.procs i)) t, m)

module _ (end_ id : ℕ) where
  -- Whether it succeeds. PTE_W is 4.
  unfoldable pub growarg : ℤ → ℕ → Table → Machine → Run (Bool × Table × Machine)
  growarg (pos zero) i t m = ok (true, put i (set_sz (t.procs i).sz (t.procs i)) t, m)
  growarg (pos (suc n)) i t m =
      let p = t.procs i in
      uvmalloc end_ id p.pagetable p.sz ((p.sz + suc n) % 2 ^ 64) 4 m >>= λ r. ok (grown i t r)
  growarg (negsuc n) i t m =
      let p = t.procs i in
      uvmdealloc end_ id p.pagetable p.sz ((p.sz + 2 ^ 64 - suc n) % 2 ^ 64) m >>= λ r.
      ok (shrunk i t r)

  -- The loop of `mygrow` over the `k` threads from `i` on; a failure of `growarg` is not looked at.
  unfoldable pub mygrow_loop : ℤ → ℕ → ℕ → ℕ → Table → Machine → Run (Table × Machine)
  mygrow_loop n me zero i t m = ok (t, m)
  mygrow_loop n me (suc k) i t m =
      let j = t.threads i in
      let related = growarg n j t m >>= λ (_, t', m'). mygrow_loop n me k (i + 1) t' m' in
      let other = mygrow_loop n me k (i + 1) t m in
      if (t.procs j).fid == (t.procs me).fid then related else other

  -- It always returns 0.
  unfoldable pub mygrow : ℤ → ℕ → Table → Machine → Run (Table × Machine)
  unfolding mygrow_loop
  mygrow n me t m = mygrow_loop n me t.curr_id 0 t m

  unfoldable pub growproc : ℤ → ℕ → Table → Machine → Run (Bool × Table × Machine)
  unfolding growarg
  growproc n me t m = growarg n me t m
