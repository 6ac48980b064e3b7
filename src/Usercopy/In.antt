-- ===== src/Usercopy/In.antt =====
-- kernel/vm.c: `copyin` brings the bytes of the user.
use proj.Common.{
  ℕ, zero, suc, ◌+◌, ◌-◌, ◌/◌, ◌≤◌, ◌<◌, ◌≡◌, refl, ap, inl, inr, arith, ok, ltb, leb, true, false,
  ◌&&◌, if◌then◌else◌, Bool-cases, fun_ext,
}
use proj.Memory.{pgsize, pground_down}
use proj.Kalloc.{Machine}
use proj.Vm.{walkaddr}
use proj.Usercopy.{Table, Bytes, part, moved, next_page, copyin_loop, copyin}
use proj.Usercopy.Pages.{
  place, Mapped, top, part-pos, part-le, next_page-part, place-part, Mapped-next, turn_found,
  top-next,
}

-- `dst` with the user's bytes from `va` at `d`.
abbrev pub brought : (ℕ → ℕ) → Bytes → ℕ → ℕ → ℕ → Bytes → Bytes
brought pa dst d va len bytes a =
    if leb d a && ltb a (d + len) then bytes (place pa (va + (a - d))) else dst a

-- A range that lies in the first page.
pub brought-first :
    (pa : ℕ → ℕ) (dst : Bytes) (d va len size : ℕ) (bytes : Bytes)
    → size ≤ part va len
    → (a : ℕ)
    → moved dst d bytes (pa (va / pgsize) + (va - pground_down va)) size a
      ≡ brought pa dst d va size bytes a
brought-first pa dst d va len size bytes h a = elim (Bool-cases (leb d a && ltb a (d + size))) [
  | inl e ↦ rw (e, place-part pa va len (a - d) (ground arith)) refl
  | inr e ↦ rw e refl
]

-- A turn and what it leaves make the whole.
pub brought-next :
    (pa : ℕ → ℕ) (dst : Bytes) (d va len size : ℕ) (bytes : Bytes)
    → part va len ≤ size
    → size ≤ len
    → va < top
    → (a : ℕ)
    → brought pa
        (moved dst d bytes (pa (va / pgsize) + (va - pground_down va)) (part va len))
        (d + part va len)
        (next_page va)
        (size - part va len)
        bytes
        a
      ≡ brought pa dst d va size bytes a
brought-next pa dst d va len size bytes p q t a =
    elim (Bool-cases (leb d a && ltb a (d + part va len))) [
      | inl here ↦
          let k : a - d < part va len = ground arith in
          let at : place pa (va + (a - d)) ≡ pa (va / pgsize) + (va - pground_down va) + (a - d) =
            place-part pa va len (a - d) k in
          let whole : (leb d a && ltb a (d + size)) ≡ true = ground (arith, part-le va len) in
          let after : (leb (d + part va len) a && ltb a (d + part va len + (size - part va len)))
              ≡ false =
            ground arith in
          rw (here, whole, after, at) refl
      | inr there ↦ elim (Bool-cases (leb d a && ltb a (d + size))) [
        | inl whole ↦
            let more : part va len < len = ground arith in
            let page = next_page-part va len more t in
            let at : next_page va + (a - (d + part va len)) ≡ va + (a - d) = ground arith in
            let after : (leb (d + part va len) a && ltb a (d + part va len + (size - part va len)))
                ≡ true =
              ground arith in
            rw (there, whole, after, at) refl
        | inr beyond ↦
            let after : (leb (d + part va len) a && ltb a (d + part va len + (size - part va len)))
                ≡ false =
              ground arith in
            rw (there, beyond, after) refl
      ]
    ]

copyin_loop-brought :
    (fuel : ℕ) (table : Table) (pa : ℕ → ℕ) (dst : Bytes) (d va len : ℕ) (bytes : Bytes)
    → Mapped table pa va len
    → (0 < len → va + len < top)
    → len < fuel
    → copyin_loop fuel table dst d va len bytes ≡ ok (true, brought pa dst d va len bytes)
unfolding copyin_loop
copyin_loop-brought zero table pa dst d va len bytes m t f = absurd (omega arith)
copyin_loop-brought (suc fuel) table pa dst d va zero bytes m t f =
    ap (λ b. ok (true, b)) (fun_ext (λ a. ground arith))
copyin_loop-brought (suc fuel) table pa dst d va (suc len) bytes m t f =
    let size = suc len in
    let n = part va size in
    let low = t (omega arith) in
    let turn = turn_found table pa va size size (omega arith) (omega arith) m in
    let rest =
      copyin_loop-brought fuel table pa
        (moved dst d bytes (pa (va / pgsize) + (va - pground_down va)) n) (d + n) (next_page va)
        (size - n) bytes (Mapped-next table pa va size size (omega arith) (omega arith) m)
        (top-next va size t) (omega (arith, part-pos va size)) in
    rw (turn.0, turn.1, turn.2, rest)
      (ap (λ b. ok (true, b))
        (fun_ext
          (brought-next pa dst d va size size bytes (part-le va size) (omega arith) (omega arith))))

-- When the pages of `len` bytes from `va` are mapped, `copyin` returns 0 and has put these bytes at
-- `d`, and nothing else.
pub copyin-brought :
    (id pagetable : ℕ) (m : Machine) (pa : ℕ → ℕ) (dst : Bytes) (d va len : ℕ) (bytes : Bytes)
    → Mapped (λ v. walkaddr id pagetable v m) pa va len
    → va + len < top
    → copyin id pagetable m dst d va len bytes ≡ ok (true, brought pa dst d va len bytes)
unfolding copyin
copyin-brought id pagetable m pa dst d va len bytes h t =
    copyin_loop-brought (suc len) (λ v. walkaddr id pagetable v m) pa dst d va len bytes h (λ p. t)
      (omega arith)
