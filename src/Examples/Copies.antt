-- ===== src/Examples/Copies.antt =====
-- The copies of a user's bytes over a small page table.
use proj.Common.{
  ℕ, ◌+◌, ◌/◌, ◌≡◌, ◌<◌, refl, true, false, none, inl, inr, ok, ◌==◌, ltb, ltb→lt, if◌then◌else◌,
  arith, Bool-cases,
}
use proj.Memory.{kernbase}
use proj.Kalloc.{Machine}
use proj.Vm.{walk, walkaddr, pa2pte}
use proj.Usercopy.{Bytes, moved, copyin, copyout, copyinstr}
use proj.Usercopy.Pages.{Mapped, place}
use proj.Usercopy.In.{brought}
use proj.Usercopy.Out.{Apart, Put, copyout-Put, copyin-copyout}
use proj.Usercopy.Str.{copyinstr-brought}

-- The table is at `kernbase`; pages 0 and 1 of the user are the fourth and the fifth page from
-- there.
abbrev table : Machine
table = record {
  mem = λ a.
      if a == kernbase
      then pa2pte (kernbase + 4096) + 1
      else if a == kernbase + 4096
      then pa2pte (kernbase + 8192) + 1
      else if a == kernbase + 8192
      then pa2pte (kernbase + 12288) + 23
      else if a == kernbase + 8200
      then pa2pte (kernbase + 16384) + 23
      else 0;
  freelist = 0;
  lock = record { locked = false; cpu = none };
  cpu = record { noff = 0; intena = false; intr = false };
}

abbrev page_at : ℕ → ℕ
page_at p = if p == 0 then kernbase + 12288 else kernbase + 16384

first_page : walkaddr 0 kernbase 0 table ≡ ok (kernbase + 12288)
unfolding walkaddr walk
first_page = refl

second_page : walkaddr 0 kernbase 4096 table ≡ ok (kernbase + 16384)
unfolding walkaddr walk
second_page = refl

-- The last byte of the first page, and two of the second.
mapped : Mapped (λ v. walkaddr 0 kernbase v table) page_at 4095 3
mapped v low high = elim (Bool-cases (ltb v 4096)) [
  | inl e ↦ let page : v / 4096 ≡ 0 = ground arith in rw page (first_page, omega arith)
  | inr e ↦ let page : v / 4096 ≡ 1 = ground arith in rw page (second_page, omega arith)
]

place-run : (i : ℕ) → i < 3 → place page_at (4095 + i) ≡ kernbase + 12288 + 4095 + i
place-run i h = elim (Bool-cases (ltb i 1)) [
  | inl e ↦ let page : (4095 + i) / 4096 ≡ 0 = ground arith in rw page (omega (arith, ltb→lt i 1 e))
  | inr e ↦ let page : (4095 + i) / 4096 ≡ 1 = ground arith in rw page (ground arith)
]

apart : Apart page_at 4095 3
apart i j h k e = omega (arith, place-run i h, place-run j k)

abbrev numbered : Bytes
numbered a = a

abbrev zeros : Bytes
zeros a = 0

copyout_example :
    (out : Bytes) × (copyout 0 kernbase table 4095 numbered 7 3 zeros ≡ ok (true, out))
    × Put page_at 4095 numbered 7 3 zeros out
copyout_example =
    copyout-Put 0 kernbase table page_at 4095 numbered 7 3 zeros mapped apart (omega arith)

copyin-copyout_example :
    (out : Bytes) × (copyout 0 kernbase table 4095 numbered 7 3 zeros ≡ ok (true, out))
    × (copyin 0 kernbase table zeros 20 4095 3 out ≡ ok (true, moved zeros 20 numbered 7 3))
copyin-copyout_example =
    copyin-copyout 0 kernbase table page_at 4095 numbered 7 3 zeros zeros 20 mapped apart
      (omega arith)

-- The NUL is the first byte of the second page.
abbrev string : Bytes
string a = if a == kernbase + 16384 then 0 else 65

copyinstr_example :
    copyinstr 0 kernbase table zeros 10 4095 128 string
    ≡ ok (true, brought page_at zeros 10 4095 2 string)
copyinstr_example =
    copyinstr-brought 0 kernbase table page_at zeros 10 4095 128 1 string
      (λ v low high. mapped v low (omega arith)) (omega arith) (λ i h. ground arith)
      (inr (omega arith, refl))
