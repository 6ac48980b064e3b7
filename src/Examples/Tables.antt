-- ===== src/Examples/Tables.antt =====
-- kernel/vm.c and kernel/riscv.h at concrete inputs.
use proj.Common.{if◌then◌else◌, ◌==◌, ◌≢◌, ℕ, ◌≡◌, refl, true, false, none, ok, arith}
use proj.Kalloc.{Machine}
use proj.Vm.{walk_loop, walkaddr, mappages}
use proj.Vm.Map.{Finds, walkaddr-mappages}
use proj.Memory.{pgsize}

-- Memory in which no table has a valid entry.
abbrev blank_memory : Machine
blank_memory = record {
  cpu = record { noff = 0; intena = false; intr = true };
  lock = record { locked = false; cpu = none };
  freelist = 0;
  mem = λ _. 0;
}

-- Tables at 4096, 8192 and 12288, the last of them empty.
abbrev three_tables : Machine
three_tables = record blank_memory {
  mem = λ a. if a == 4096 then 2049 else if a == 8192 then 3073 else 0;
}

three_tables-Finds : Finds 0 2 4096 0 three_tables 12288
unfolding walk_loop
three_tables-Finds = record { found = refl; some_entry = λ e. absurd (omega arith); invalid = refl }

mappages_example :
    (m' : Machine) × (mappages 0 4096 0 pgsize 16384 22 three_tables ≡ ok (true, m'))
    × (walkaddr 0 4096 0 m' ≡ ok 16384)
    × ((a : ℕ) → a ≢ 12288 → m'.mem a ≡ three_tables.mem a)
mappages_example =
    walkaddr-mappages 0 4096 0 16384 22 three_tables-Finds (omega arith) refl refl (omega arith)
      (omega arith)
