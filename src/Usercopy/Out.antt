-- ===== src/Usercopy/Out.antt =====
-- kernel/vm.c: `copyout` puts bytes where `copyin` finds them.
use proj.Common.{
  ℕ, zero, suc, ◌+◌, ◌-◌, ◌/◌, ◌<◌, ◌≡◌, ◌≢◌, refl, sym, ap, ◌∙◌, inl, inr, arith, ok, ltb, leb,
  ltb→lt, true, false, ◌&&◌, Bool-cases, fun_ext,
}
use proj.Memory.{pgsize, pground_down}
use proj.Kalloc.{Machine}
use proj.Vm.{walkaddr}
use proj.Usercopy.{Table, Bytes, part, moved, next_page, copyout_loop, copyout, copyin}
use proj.Usercopy.Pages.{
  place, Mapped, top, part-pos, part-le, next_page-part, place-part, Mapped-next, turn_found,
  top-next,
}
use proj.Usercopy.In.{brought, copyin-brought}

-- No two of the `len` bytes from `va` are one byte of memory.
abbrev pub Apart : (ℕ → ℕ) → ℕ → ℕ → Type 0
Apart pa va len = (i j : ℕ) → i < len → j < len → place pa (va + i) ≡ place pa (va + j) → i ≡ j

-- The bytes of `src` from `s` are where the user's bytes from `va` are, and nothing else has
-- changed.
pub record Put (pa : ℕ → ℕ) (va : ℕ) (src : Bytes) (s len : ℕ) (bytes out : Bytes) : Type 0 where
  pub put : (i : ℕ) → i < len → out (place pa (va + i)) ≡ src (s + i)
  pub kept : (x : ℕ) → ((i : ℕ) → i < len → x ≢ place pa (va + i)) → out x ≡ bytes x

Put-none :
    (pa : ℕ → ℕ) (va : ℕ) (src : Bytes) (s : ℕ) (bytes : Bytes) → Put pa va src s 0 bytes bytes
Put-none pa va src s bytes = record { put = λ i h. absurd (omega arith); kept = λ x h. refl }

-- Where byte `n + i` is, seen from the next page.
place-next :
    (pa : ℕ → ℕ) (va len i : ℕ)
    → va < top
    → i < len - part va len
    → place pa (next_page va + i) ≡ place pa (va + (part va len + i))
place-next pa va len i t h = ap (place pa) (omega (arith, next_page-part va len (omega arith) t))

-- A byte that is none of the user's is not in the part that a turn writes.
outside :
    (pa : ℕ → ℕ) (va len x : ℕ)
    → ((i : ℕ) → i < len → x ≢ place pa (va + i))
    → let to = pa (va / pgsize) + (va - pground_down va) in
      (leb to x && ltb x (to + part va len)) ≡ false
outside pa va len x h =
    let to = pa (va / pgsize) + (va - pground_down va) in
    elim (Bool-cases (leb to x && ltb x (to + part va len))) [
      | inl inside ↦
          let k : x - to < part va len = ground arith in
          let e : to + (x - to) ≡ x = ground arith in
          absurd (
            h (x - to) (omega (arith, part-le va len))
              (omega (arith, e, place-part pa va len (x - to) k)))
      | inr e ↦ e
    ]

Put-next :
    (pa : ℕ → ℕ) (va : ℕ) (src : Bytes) (s len : ℕ) (bytes out : Bytes)
    → va < top
    → Apart pa va len
    → Put pa
        (next_page va)
        src
        (s + part va len)
        (len - part va len)
        (moved bytes (pa (va / pgsize) + (va - pground_down va)) src s (part va len))
        out
    → Put pa va src s len bytes out
Put-next pa va src s len bytes out t apart rest = record {
  put = λ i h. elim (Bool-cases (ltb i (part va len))) [
    | inl first ↦
        let at = place-part pa va len i (ground arith) in
        let other : (j : ℕ)
            → j < len - part va len
            → place pa (va + i) ≢ place pa (next_page va + j) =
          λ j l e. absurd (
            omega (
              arith,
              part-le va len,
              ltb→lt i (part va len) first,
              apart i (part va len + j) h (omega (arith, part-le va len))
                  (e ∙ place-next pa va len j t l),
            )) in
        rw (rest.kept (place pa (va + i)) other) (rw at (ground arith))
    | inr later ↦
        let j = i - part va len in
        let l : j < len - part va len = ground (arith, part-le va len) in
        let same : part va len + j ≡ i = ground arith in
        let found = rest.put j l in
        let spot = place-next pa va len j t l in
        rw (rw (spot, same) at found) (ap src (omega (arith, same)))
  ];
  kept = λ x h.
      let below : (j : ℕ) → j < len - part va len → x ≢ place pa (next_page va + j) = λ j l e.
        h (part va len + j) (omega (arith, part-le va len)) (e ∙ place-next pa va len j t l) in
      rw (rest.kept x below, outside pa va len x h) refl;
}

Apart-next :
    (pa : ℕ → ℕ) (va len : ℕ)
    → va < top
    → Apart pa va len
    → Apart pa (next_page va) (len - part va len)
Apart-next pa va len t apart i j h k e =
    let n = part va len in
    omega (
      arith,
      part-le va len,
      apart (n + i) (n + j) (omega (arith, part-le va len)) (omega (arith, part-le va len))
          (sym (place-next pa va len i t h) ∙ (e ∙ place-next pa va len j t k)),
    )

copyout_loop-Put :
    (fuel : ℕ) (table : Table) (pa : ℕ → ℕ) (va : ℕ) (src : Bytes) (s len : ℕ) (bytes : Bytes)
    → Mapped table pa va len
    → Apart pa va len
    → (0 < len → va + len < top)
    → len < fuel
    → (out : Bytes) × (copyout_loop fuel table va src s len bytes ≡ ok (true, out))
      × Put pa va src s len bytes out
unfolding copyout_loop
copyout_loop-Put zero table pa va src s len bytes m a t f = absurd (omega arith)
copyout_loop-Put (suc fuel) table pa va src s zero bytes m a t f =
    (bytes, refl, Put-none pa va src s bytes)
copyout_loop-Put (suc fuel) table pa va src s (suc len) bytes m a t f =
    let size = suc len in
    let n = part va size in
    let low = t (omega arith) in
    let turn = turn_found table pa va size size (omega arith) (omega arith) m in
    let (out, run, put) =
      copyout_loop-Put fuel table pa (next_page va) src (s + n) (size - n)
        (moved bytes (pa (va / pgsize) + (va - pground_down va)) src s n)
        (Mapped-next table pa va size size (omega arith) (omega arith) m)
        (Apart-next pa va size (omega arith) a) (top-next va size t)
        (omega (arith, part-pos va size)) in
    (out, rw (turn.0, turn.1, turn.2) run, Put-next pa va src s size bytes out (omega arith) a put)

-- When the pages of `len` bytes from `va` are mapped, below 2 ^ 63 and no two of the bytes to one
-- byte of memory, `copyout` returns 0: the bytes of the user are those of `src`, and no other byte
-- of memory has changed.
pub copyout-Put :
    (id pagetable : ℕ) (m : Machine) (pa : ℕ → ℕ) (va : ℕ) (src : Bytes) (s len : ℕ) (bytes : Bytes)
    → Mapped (λ v. walkaddr id pagetable v m) pa va len
    → Apart pa va len
    → va + len < top
    → (out : Bytes) × (copyout id pagetable m va src s len bytes ≡ ok (true, out))
      × Put pa va src s len bytes out
unfolding copyout
copyout-Put id pagetable m pa va src s len bytes h a t =
    copyout_loop-Put (suc len) (λ v. walkaddr id pagetable v m) pa va src s len bytes h a (λ p. t)
      (omega arith)

brought-Put :
    (pa : ℕ → ℕ) (va : ℕ) (src : Bytes) (s len : ℕ) (bytes out dst : Bytes) (d : ℕ)
    → Put pa va src s len bytes out
    → brought pa dst d va len out ≡ moved dst d src s len
brought-Put pa va src s len bytes out dst d p = fun_ext (λ a. ground (arith, p.put (a - d)))

-- When the pages of `len` bytes from `va` are mapped, below 2 ^ 63 and no two of the bytes to one
-- byte of memory, `copyout` and then `copyin` return 0, and `copyin` brings what was put there.
pub copyin-copyout :
    (id pagetable : ℕ) (m : Machine) (pa : ℕ → ℕ) (va : ℕ) (src : Bytes) (s len : ℕ)
    (bytes dst : Bytes) (d : ℕ)
    → Mapped (λ v. walkaddr id pagetable v m) pa va len
    → Apart pa va len
    → va + len < top
    → (out : Bytes) × (copyout id pagetable m va src s len bytes ≡ ok (true, out))
      × (copyin id pagetable m dst d va len out ≡ ok (true, moved dst d src s len))
copyin-copyout id pagetable m pa va src s len bytes dst d h a t =
    let (out, run, put) = copyout-Put id pagetable m pa va src s len bytes h a t in
    (
      out,
      run,
      copyin-brought id pagetable m pa dst d va len out h t
          ∙ ap (λ b. ok (true, b)) (brought-Put pa va src s len bytes out dst d put),
    )
