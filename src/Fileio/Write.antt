-- ===== src/Fileio/Write.antt =====
-- kernel/fs.c: `writei`.
use proj.Common.{
  panic, min, ◌≤◌, refl, ℕ, zero, suc, ◌+◌, ◌-◌, ◌/◌, ◌%◌, ◌^◌, ◌<◌, ◌≡◌, ◌⊎◌, sym, ap, ◌∙◌, subst,
  true, false, ◌&&◌, Option, none, some, Run, ok, arith, ◌==◌, ltb, leb, if◌then◌else◌, Bool-cases,
  inl, inr,
}
use proj.Fs.{Disk, Inode, iupdate}
use proj.Fs.Own.{slot, Owns}
use proj.Fs.Map.{place, After, bmap-After}
use proj.Fileio.{
  Transfer, bsize, max_bytes, chunk, put_bytes, writei_body, writei_loop, writei_end, writei,
}
use proj.Fileio.Contents.{byte_at, place-slots, put_bytes-byte_at}
use proj.Fileio.Pieces.{Wrote, Wrote-nothing, Wrote-part, Wrote-more, unanswered, nonzero}

-- What the loop does from a state on: where the transaction has no room for a block it is a panic.
abbrev Goes : Transfer → (ℕ → ℕ) → ℕ → ℕ → ℕ → Inode → Disk → Run (ℕ × (Inode × Disk)) → Type 0
Goes tr src n off tot ip d x =
    ((x ≡ panic) × (k : ℕ) × (k < n) × (tr.room k ≡ false))
    ⊎ (r : ℕ × (Inode × Disk)) × (x ≡ ok r) × Wrote tr src n off tot ip d r

-- What a chunk of `m` bytes, or a part of it, makes of the file.
put_chunk :
    (src : ℕ → ℕ) (n off tot m a : ℕ) (ip ip' : Inode) (d d' : Disk)
    → Owns ip' d'
    → slot ip' d' (place (off / bsize)) ≡ a
    → (a == 0) ≡ false
    → m ≤ chunk n tot off
    → off < max_bytes
    → ((o : ℕ) → o < max_bytes → byte_at ip' d' o ≡ byte_at ip d o)
    → (o : ℕ) → o < max_bytes
    → byte_at ip' (put_bytes src tot a (off % bsize) m d') o
      ≡ (if leb off o && ltb o (off + m) then src (tot + (o - off)) else byte_at ip d o)
put_chunk src n off tot m a ip ip' d d' own at nz le inside same o lt =
    subst
      (λ b.
        byte_at ip' (put_bytes src tot b (off % bsize) m d') o
        ≡ (if leb off o && ltb o (off + m) then src (tot + (o - off)) else byte_at ip d o))
      at
      (put_bytes-byte_at src tot off m ip' d' own (λ z. nonzero a nz (sym at ∙ z))
          (omega (arith, le)) inside o lt
        ∙ ap (λ v. if leb off o && ltb o (off + m) then src (tot + (o - off)) else v) (same o lt))

body-Goes :
    (tr : Transfer) (src : ℕ → ℕ) (n off tot : ℕ) (ip : Inode) (d : Disk)
    (rest : ℕ → ℕ → Inode × Disk → Run (ℕ × (Inode × Disk))) (r : ℕ × (Inode × Disk))
    → After ip d (off / bsize) r
    → tot < n
    → off + (n - tot) ≤ max_bytes
    → ((m : ℕ) (ip' : Inode) (d' : Disk)
        → 0 < m
        → tot + m ≤ n
        → Owns ip' d'
        → Goes tr src n (off + m) (tot + m) ip' d' (rest (off + m) (tot + m) (ip', d')))
    → Goes tr src n off tot ip d (writei_body tr src off n tot rest r)
body-Goes tr src n off tot ip d rest (a, (ip', d')) (own, at, others, answer, kept) lt inside go =
    let same : (o : ℕ) → o < max_bytes → byte_at ip' d' o ≡ byte_at ip d o =
      λ o lt'. kept.0 (place (o / bsize)) (o % bsize) (place-slots o lt') in
    let m = chunk n tot off in
    elim (Bool-cases (a == 0)) [
      | inl z ↦ rw z (
          inr (
            (tot, (ip', d')),
            refl,
            Wrote-nothing tr src n off tot ip ip' d d' own (omega (arith, lt)) kept.1
                (inr (inr (unanswered a d' z answer))) same,
          ))
      | inr nz ↦
          let put : (l : ℕ)
              → l ≤ m
              → (o : ℕ) → o < max_bytes
              → byte_at ip' (put_bytes src tot a (off % bsize) l d') o
                ≡ (if leb off o && ltb o (off + l) then src (tot + (o - off)) else byte_at ip d o) =
            λ l le.
              put_chunk src n off tot l a ip ip' d d' own at nz le (omega (arith, lt, inside))
                same in
          elim (Bool-cases (tr.copied tot)) [
            | inr bad ↦
                let extra = min (tr.part tot) m in
                let d'' = put_bytes src tot a (off % bsize) extra d' in
                rw (nz, bad)
                  (inr (
                    (tot, (ip', d'')),
                    refl,
                    Wrote-part tr src n off tot extra ip ip' d d'' own (omega (arith, lt)) kept.1
                        bad (omega arith) (put extra (omega arith)),
                  ))
            | inl good ↦ elim (Bool-cases (tr.room tot)) [
              | inr none_left ↦ rw (nz, good, none_left) (inl (refl, tot, lt, none_left))
              | inl some_left ↦
                  let d'' = put_bytes src tot a (off % bsize) m d' in
                  rw (nz, good, some_left)
                    (elim (go m ip' d'' (omega (arith, lt)) (omega (arith, lt)) own) [
                      | inl stuck ↦ inl stuck
                      | inr (r, e, w) ↦ inr (
                        r,
                        e,
                        Wrote-more tr src n off tot m ip ip' d d'' r kept.1 (put m (omega arith)) w,
                      )
                    ])
            ]
          ]
    ]

writei_loop-Goes :
    (tr : Transfer) (src : ℕ → ℕ) (fuel n off tot : ℕ) (ip : Inode) (d : Disk)
    → Owns ip d
    → tot ≤ n
    → off + (n - tot) ≤ max_bytes
    → n - tot < fuel
    → Goes tr src n off tot ip d (writei_loop tr src fuel n off tot (ip, d))
unfolding writei_loop
writei_loop-Goes tr src zero n off tot ip d o le inside enough = absurd (omega arith)
writei_loop-Goes tr src (suc fuel) n off tot ip d o le inside enough =
    elim (Bool-cases (ltb tot n)) [
      | inr done ↦
          let all : tot ≡ n = ground arith in
          rw done (
            inr (
              (tot, (ip, d)),
              refl,
              Wrote-nothing tr src n off tot ip ip d d o le refl (inl all) (λ p lt. refl),
            ))
      | inl more ↦
          let lt : tot < n = ground arith in
          let (r, e, after) = bmap-After ip d (off / bsize) o (omega (arith, inside, lt)) in
          rw (more, e)
            (body-Goes tr src n off tot ip d (writei_loop tr src fuel n) r after lt inside
              (λ m ip' d' pos fits own.
                writei_loop-Goes tr src fuel n (off + m) (tot + m) ip' d' own fits
                  (omega (arith, inside)) (omega (arith, enough, pos))))
    ]

-- What `writei` leaves.
abbrev pub Written : Transfer → (ℕ → ℕ) → ℕ → ℕ → Inode → Disk → Option ℕ × (Inode × Disk) → Type 0
Written tr src n off ip d (none, s) = ⊥
Written tr src n off ip d (some tot, (ip', d')) =
    (extra : ℕ) × Owns ip' d'
    × (tot + extra ≤ n)
    × ((tot ≡ n) ⊎ (tr.copied tot ≡ false) ⊎ ((y : ℕ) → y < d'.size → d'.used y ≡ true))
    × ((extra ≡ 0) ⊎ (tr.copied tot ≡ false) × (extra ≤ tr.part tot))
    × (ip'.size ≡ (if ltb ip.size (off + tot) then off + tot else ip.size))
    × ((o : ℕ)
        → o < max_bytes
        → byte_at ip' d' o
          ≡ (if leb off o && ltb o (off + (tot + extra)) then src (o - off) else byte_at ip d o))

from_start :
    (src : ℕ → ℕ) (off tot o v : ℕ)
    → (if leb off o && ltb o (off + (tot - 0)) then src (0 + (o - off)) else v)
      ≡ (if leb off o && ltb o (off + tot) then src (o - off) else v)
from_start src off tot o v =
    let e : tot - 0 ≡ tot = omega arith in
    let e' : 0 + (o - off) ≡ o - off = omega arith in rw (e, e') refl

end-Written :
    (tr : Transfer) (src : ℕ → ℕ) (n off : ℕ) (ip : Inode) (d : Disk) (r : ℕ × (Inode × Disk))
    → Wrote tr src n off 0 ip d r
    → (r' : Option ℕ × (Inode × Disk)) × (writei_end off r ≡ ok r') × Written tr src n off ip d r'
unfolding iupdate
end-Written tr src n off ip d (tot, (ip', d')) (extra, own, ge, le, size, why, more, bytes) =
    let grown = record ip' { size = off + tot } in
    let bytes' : (o : ℕ)
        → o < max_bytes
        → byte_at ip' d' o
          ≡ (if leb off o && ltb o (off + (tot + extra)) then src (o - off) else byte_at ip d o) =
      λ o lt. bytes o lt ∙ from_start src off (tot + extra) o (byte_at ip d o) in
    elim (Bool-cases (ltb ip'.size (off + tot))) [
      | inl grows ↦
          let grows' : ltb ip.size (off + tot) ≡ true =
            ap (λ k. ltb k (off + tot)) (sym size) ∙ grows in
          rw grows (
            (some tot, (grown, iupdate grown d')),
            refl,
            (extra, own, le, why, more, rw grows' refl, bytes'),
          )
      | inr fits ↦
          let fits' : ltb ip.size (off + tot) ≡ false =
            ap (λ k. ltb k (off + tot)) (sym size) ∙ fits in
          rw fits (
            (some tot, (ip', iupdate ip' d')),
            refl,
            (extra, own, le, why, more, rw fits' size, bytes'),
          )
    ]

-- Of a file that owns its blocks, a write that starts within it and ends below the largest size
-- either panics, since the transaction has no room for one of the blocks, or returns how many bytes
-- were written: all of them, unless a copy fails or the disk is full. The file holds them from `off`
-- on, behind them, only where a copy failed, at most as many more as it had copied, and is otherwise
-- as it was; its size grows if the bytes that were counted reach beyond it, and it owns its blocks.
pub writei-Written :
    (tr : Transfer) (src : ℕ → ℕ) (n off : ℕ) (ip : Inode) (d : Disk)
    → Owns ip d
    → off ≤ ip.size
    → off + n ≤ max_bytes
    → ((writei tr src off n (ip, d) ≡ panic) × (k : ℕ) × (k < n) × (tr.room k ≡ false))
      ⊎ (r : Option ℕ × (Inode × Disk)) × (writei tr src off n (ip, d) ≡ ok r)
        × Written tr src n off ip d r
unfolding writei
writei-Written tr src n off ip d own le inside =
    let w : (off + n) % 2 ^ 32 ≡ off + n = omega (arith, inside) in
    let a : ltb ip.size off ≡ false = ground (arith, le) in
    let b : ltb (off + n) off ≡ false = ground arith in
    let c : ltb max_bytes (off + n) ≡ false = ground (arith, inside) in
    elim (writei_loop-Goes tr src (n + 1) n off 0 ip d own (omega arith) (omega (arith, inside))
      (omega arith)) [
        | inl (e, k, lt, stuck) ↦ inl (rw (w, a, b, c, e) refl, k, lt, stuck)
        | inr (r, e, wrote) ↦ inr (rw (w, a, b, c, e) (end-Written tr src n off ip d r wrote))
      ]
