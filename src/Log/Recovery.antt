-- ===== src/Log/Recovery.antt =====
-- kernel/log.c: what the writes of the log do to the disk, block by block.
use proj.Common.{
  ℕ, zero, suc, ◌+◌, ◌≤◌, ◌<◌, ◌≡◌, refl, ◌∙◌, ◌⊎◌, inl, inr, Bool, true, false, ◌&&◌, ◌||◌, List,
  [], ◌∷◌, length, take, All, arith, ◌==◌, ltb, leb, ==_refl, if◌then◌else◌,
}
use proj.Log.{Blocks, update, Event, disk_write, wakeup}
use proj.Log.Events.{replay, log_events, install_events}

-- The log's own blocks: the header and those behind it.
abbrev pub in_log : ℕ → ℕ → ℕ → Bool
in_log start size a = leb start a && ltb a (start + size)

abbrev pub has : ℕ → List ℕ → Bool
has a [] = false
has a (x ∷ xs) = (a == x) || has a xs

-- Some event writes block `a`.
abbrev pub writes : ℕ → List Event → Bool
writes a [] = false
writes a (disk_write b v ∷ es) = (a == b) || writes a es
writes a (wakeup ∷ es) = writes a es

pub replay_other :
    (a : ℕ) (es : List Event) (d : Blocks) → writes a es ≡ false → replay es d a ≡ d a
unfolding replay
replay_other a [] d h = refl
replay_other a (disk_write b v ∷ es) d h = ground (arith, replay_other a es (update d b v))
replay_other a (wakeup ∷ es) d h = replay_other a es d h

pub writes-take : (a k : ℕ) (es : List Event) → writes a es ≡ false → writes a (take k es) ≡ false
writes-take a zero es h = refl
writes-take a (suc k) [] h = refl
writes-take a (suc k) (disk_write b v ∷ es) h = ground (arith, writes-take a k es)
writes-take a (suc k) (wakeup ∷ es) h = writes-take a k es h

-- The `n` log blocks from `tail` on hold what `v` has for the blocks of the list.
abbrev pub Logged : ℕ → ℕ → List ℕ → Blocks → Blocks → Type 0
Logged start tail [] d v = Unit
Logged start tail (b ∷ bs) d v = (d (start + tail + 1) ≡ v b) × Logged start (tail + 1) bs d v

abbrev pub Data : ℕ → ℕ → ℕ → Type 0
Data start size a = in_log start size a ≡ false

module _ (start size : ℕ) where
  pub log_events-writes :
      (tail a : ℕ) (bs : List ℕ) (u : Blocks)
      → tail + length bs + 1 ≤ size
      → (Data start size a ⊎ (a ≤ start + tail))
      → writes a (log_events start tail bs u) ≡ false
  unfolding log_events
  log_events-writes tail a [] u room h = refl
  log_events-writes tail a (b ∷ bs) u room h =
      ground (arith, log_events-writes (tail + 1) a bs (update u (start + tail + 1) (u b)))

  pub log_events-Logged :
      (tail : ℕ) (bs : List ℕ) (u v d : Blocks)
      → tail + length bs + 1 ≤ size
      → All (Data start size) bs
      → ((a : ℕ) → Data start size a → u a ≡ v a)
      → Logged start tail bs (replay (log_events start tail bs u) d) v
  unfolding log_events replay
  log_events-Logged tail [] u v d room out same = tt
  log_events-Logged tail (b ∷ bs) u v d room out same =
      let to = start + tail + 1 in
      let u' : Blocks = update u to (u b) in
      (
        replay_other to (log_events start (tail + 1) bs u') (update d to (u b))
              (log_events-writes (tail + 1) to bs u' (omega arith) (inr (omega arith)))
            ∙ (rw (==_refl to) (same b out.0)),
        log_events-Logged (tail + 1) bs u' v (update d to (u b)) (omega arith) out.1
            (λ a h. ground (arith, same a)),
      )

  pub Logged-frame :
      (tail : ℕ) (bs : List ℕ) (d d' v : Blocks)
      → tail + length bs + 1 ≤ size
      → ((a : ℕ) → start < a → a < start + size → d' a ≡ d a)
      → Logged start tail bs d v
      → Logged start tail bs d' v
  Logged-frame tail [] d d' v room same h = tt
  Logged-frame tail (b ∷ bs) d d' v room same h = (
    same (start + tail + 1) (omega arith) (omega arith) ∙ h.0,
    Logged-frame (tail + 1) bs d d' v (omega arith) same h.1,
  )

  pub install_events-writes :
      (tail a : ℕ) (bs : List ℕ) (u : Blocks)
      → has a bs ≡ false
      → writes a (install_events start tail bs u) ≡ false
  unfolding install_events
  install_events-writes tail a [] u h = refl
  install_events-writes tail a (b ∷ bs) u h =
      ground (arith, install_events-writes (tail + 1) a bs (update u b (u (start + tail + 1))))

  -- Data blocks are never blocks of the log.
  pub not_has :
      (a : ℕ) (bs : List ℕ)
      → All (Data start size) bs
      → in_log start size a ≡ true
      → has a bs ≡ false
  not_has a [] out h = refl
  not_has a (b ∷ bs) out h = ground (arith, not_has a bs out.1 h)

  -- After `k` writes of `install_trans` a data block is as it was or as it was logged.
  pub install_events-take :
      (k tail a : ℕ) (bs : List ℕ) (u v d : Blocks)
      → tail + length bs + 1 ≤ size
      → All (Data start size) bs
      → Logged start tail bs u v
      → (replay (take k (install_events start tail bs u)) d a ≡ d a)
        ⊎ (replay (take k (install_events start tail bs u)) d a ≡ v a)
  unfolding install_events replay
  install_events-take zero tail a bs u v d room out lg = inl refl
  install_events-take (suc k) tail a [] u v d room out lg = inl refl
  install_events-take (suc k) tail a (b ∷ bs) u v d room out lg =
      let w = u (start + tail + 1) in
      let later =
        Logged-frame (tail + 1) bs u (update u b w) v (omega arith)
          (λ x lo hi. ground (arith, out.0)) lg.1 in
      ground (
        arith,
        lg.0,
        install_events-take k (tail + 1) a bs (update u b w) v (update d b w) (omega arith) out.1
            later,
      )

  -- After all of them each listed block is as it was logged, and no other has changed.
  pub install_events-replay :
      (tail a : ℕ) (bs : List ℕ) (u v d : Blocks)
      → tail + length bs + 1 ≤ size
      → All (Data start size) bs
      → Logged start tail bs u v
      → replay (install_events start tail bs u) d a ≡ (if has a bs then v a else d a)
  unfolding install_events replay
  install_events-replay tail a [] u v d room out lg = refl
  install_events-replay tail a (b ∷ bs) u v d room out lg =
      let w = u (start + tail + 1) in
      let later =
        Logged-frame (tail + 1) bs u (update u b w) v (omega arith)
          (λ x lo hi. ground (arith, out.0)) lg.1 in
      ground (
        arith,
        lg.0,
        install_events-replay (tail + 1) a bs (update u b w) v (update d b w) (omega arith) out.1
            later,
      )
