-- ===== src/Proc/Wakeup.antt =====
-- kernel/proc.c: `wakeup` wakes exactly the processes that sleep on its channel.
use proj.Common.{
  ℕ, zero, suc, ◌+◌, ◌≡◌, sym, ap, ◌∙◌, false, not, ◌&&◌, Option, ok, arith, ltb, leb,
  if◌then◌else◌, Bool-cases, inl, inr, ◌⊎◌, ◌<◌, ◌≢◌, true, none, some, refl, ==_refl,
}
use mathlib.Core.Bool.{true≢false}
use proj.Proc.{
  unheld, ProcState, unused, used, sleeping, running, zombie, no_chan, on_proc, on_addr, Proc, Chan,
  Table, nproc, put, lock, unlock, visit, is_me, same_chan, is_sleeping, runnable,
}
use proj.Proc.Sched.{wake_one, wakeup_loop, wakeup}
use proj.Proc.Locks.{Quiet, visit-ok, locked-lock, Quiet-put, table_eq}

-- The table after `wakeup` for the `n` entries from `i` on.
unfoldable woken : Option ℕ → Chan → ℕ → ℕ → Table → Table
woken me chan n i t = record t {
  procs = λ j.
      if (leb i j && ltb j (i + n)) && not (is_me me j)
      then wake_one chan (t.procs j)
      else t.procs j;
}

wake_one-locked : (chan : Chan) (p : Proc) → (wake_one chan p).locked ≡ p.locked
unfolding wake_one
wake_one-locked chan p = ground arith

unlock-wake_one :
    (chan : Chan) (p : Proc) → p.locked ≡ unheld → unlock (wake_one chan (lock p)) ≡ wake_one chan p
unfolding wake_one lock unlock
unlock-wake_one chan p e = elim (Bool-cases (is_sleeping p.state && same_chan p.chan chan)) [
  | inl h ↦ rw h (ap (λ b. record p { locked = b; state = runnable }) (sym e))
  | inr h ↦ rw h (ap (λ b. record p { locked = b }) (sym e))
]

-- A `visit` that wakes.
visit-wake_one :
    (i : ℕ) (chan : Chan) (t : Table)
    → Quiet t
    → visit i (wake_one chan) t ≡ ok (put i (wake_one chan (t.procs i)) t)
visit-wake_one i chan t q =
    visit-ok i (wake_one chan) t (q i)
      (wake_one-locked chan (lock (t.procs i)) ∙ locked-lock (t.procs i))
    ∙ ap (λ p. ok (put i p t)) (unlock-wake_one chan (t.procs i) (q i))

wakeup_loop-woken :
    (me : Option ℕ) (chan : Chan) (n i : ℕ) (t : Table)
    → Quiet t
    → wakeup_loop me chan n i t ≡ ok (woken me chan n i t)
unfolding wakeup_loop woken put
wakeup_loop-woken me chan zero i t q = table_eq t (λ j. ground arith)
wakeup_loop-woken me chan (suc n) i t q = elim (Bool-cases (is_me me i)) [
  | inl mine ↦ rw (mine, wakeup_loop-woken me chan n (i + 1) t q) (table_eq t (λ j. ground arith))
  | inr other ↦
      let t' = put i (wake_one chan (t.procs i)) t in
      rw (other, visit-wake_one i chan t q)
        (wakeup_loop-woken me chan n (i + 1) t'
            (Quiet-put i _ t (wake_one-locked chan (t.procs i) ∙ q i) q)
          ∙ table_eq t (λ j. ground arith))
]

-- Entry `j` is to be woken: it is in the table, not the caller's, and sleeps on the channel.
abbrev pub Sleeps : Option ℕ → Chan → Table → ℕ → Type 0
Sleeps me chan t j =
    (j < nproc) × (me ≢ some j) × ((t.procs j).state ≡ sleeping) × ((t.procs j).chan ≡ chan)

-- Entry `j` is woken and otherwise as it was, or it was not to be woken and is as it was.
abbrev pub Woken : Option ℕ → Chan → Table → Table → ℕ → Type 0
Woken me chan t t' j =
    Sleeps me chan t j × (t'.procs j ≡ record (t.procs j) { state = runnable })
    ⊎ (¬ Sleeps me chan t j) × (t'.procs j ≡ t.procs j)

is_sleeping-sleeping : (s : ProcState) → is_sleeping s ≡ true → s ≡ sleeping
is_sleeping-sleeping sleeping e = refl
is_sleeping-sleeping unused e = cc
is_sleeping-sleeping used e = cc
is_sleeping-sleeping runnable e = cc
is_sleeping-sleeping running e = cc
is_sleeping-sleeping zombie e = cc

same_chan-eq : (a b : Chan) → same_chan a b ≡ true → a ≡ b
same_chan-eq no_chan no_chan e = refl
same_chan-eq (on_proc i) (on_proc j) e = ap on_proc (ground arith)
same_chan-eq (on_addr i) (on_addr j) e = ap on_addr (ground arith)
same_chan-eq no_chan (on_proc j) e = cc
same_chan-eq no_chan (on_addr j) e = cc
same_chan-eq (on_proc i) no_chan e = cc
same_chan-eq (on_proc i) (on_addr j) e = cc
same_chan-eq (on_addr i) no_chan e = cc
same_chan-eq (on_addr i) (on_proc j) e = cc

same_chan_refl : (a : Chan) → same_chan a a ≡ true
same_chan_refl no_chan = refl
same_chan_refl (on_proc i) = ==_refl i
same_chan_refl (on_addr i) = ==_refl i

is_me-some : (me : Option ℕ) (j : ℕ) → is_me me j ≡ true → me ≡ some j
is_me-some none j e = cc
is_me-some (some i) j e = ap some (ground arith)

is_me-other : (me : Option ℕ) (j : ℕ) → is_me me j ≡ false → me ≢ some j
is_me-other me j e same = true≢false (sym (==_refl j) ∙ (ap (λ x. is_me x j) (sym same) ∙ e))

wake_one-cases :
    (chan : Chan) (p : Proc)
    → ((p.state ≡ sleeping) × (p.chan ≡ chan) × (wake_one chan p ≡ record p { state = runnable }))
      ⊎ (¬ ((p.state ≡ sleeping) × (p.chan ≡ chan))) × (wake_one chan p ≡ p)
unfolding wake_one
wake_one-cases chan p = elim (Bool-cases (is_sleeping p.state)) [
  | inr s ↦ inr (λ h. true≢false (ap is_sleeping (sym h.0) ∙ s), rw s refl)
  | inl s ↦ elim (Bool-cases (same_chan p.chan chan)) [
    | inl c ↦ inl (is_sleeping-sleeping p.state s, same_chan-eq p.chan chan c, rw (s, c) refl)
    | inr c ↦ inr (
      λ h. true≢false (sym (same_chan_refl chan) ∙ (ap (λ x. same_chan x chan) (sym h.1) ∙ c)),
      rw (s, c) refl,
    )
  ]
]

woken-Woken :
    (me : Option ℕ) (chan : Chan) (t : Table) (j : ℕ) → Woken me chan t (woken me chan nproc 0 t) j
unfolding woken
woken-Woken me chan t j =
    let low : leb 0 j ≡ true = ground arith in
    elim (Bool-cases (ltb j nproc)) [
      | inr out ↦ inr (λ s. ground (arith, s.0), rw (low, out) refl)
      | inl within ↦ elim (Bool-cases (is_me me j)) [
        | inl mine ↦ inr (λ s. s.1 (is_me-some me j mine), rw (low, within, mine) refl)
        | inr other ↦ elim (wake_one-cases chan (t.procs j)) [
          | inl (s, c, e) ↦
              inl
                ((ground (arith, within), is_me-other me j other, s, c), rw (low, within, other) e)
          | inr (awake, e) ↦ inr (λ s. awake (s.2, s.3), rw (low, within, other) e)
        ]
      ]
    ]

-- With no entry locked `wakeup` returns. The processes other than the caller that sleep on the
-- channel are runnable then, and else as they were; all other entries of the table are as they
-- were, and so is the rest of it.
pub wakeup-Woken :
    (me : Option ℕ) (chan : Chan) (t : Table)
    → Quiet t
    → (t' : Table) × (wakeup me chan t ≡ ok t')
      × (t' ≡ record t { procs = t'.procs })
      × ((j : ℕ) → Woken me chan t t' j)
unfolding wakeup woken
wakeup-Woken me chan t q =
    (woken me chan nproc 0 t, wakeup_loop-woken me chan nproc 0 t q, refl, woken-Woken me chan t)
