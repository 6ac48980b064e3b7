-- ===== src/Examples/Cache.antt =====
-- The buffer cache of kernel/bio.c at concrete inputs.
use proj.Common.{ℕ, refl, false, List, [], ◌∷◌, arith}
use proj.Bio.{Bcache, Bufs, push_front, binit_loop, binit, bget_find}
use proj.Bio.Lru.{Request, get, lock, load, write, release, serve_all, lru_serve_all, Agree, view}
use proj.Bio.Order.{pushed, binit-Full}
use proj.Bio.Refine.{serve_all-Refines}
use proj.Bio.Unique.{Unique, Gets, bget_find-Unique}

abbrev no_bufs : Bufs
no_bufs = record {
  dev = λ b. 0;
  blockno = λ b. 0;
  valid = λ b. false;
  refcnt = λ b. 0;
  lock = λ b. record { locked = false; pid = 0 };
  bytes = λ b i. 0;
  disk = λ d n i. n;
}

abbrev at_boot : Bcache
at_boot = record { next = λ b. 0; prev = λ b. 0; bufs = no_bufs }

abbrev order : List ℕ
order = pushed 30 0 []

-- A block is read, written and released, and another is read.
abbrev requests : List Request
requests =
    get 1 5
    ∷ (lock 7 0 ∷ (load 0 ∷ (write 7 0 ∷ (release 7 0 ∷ (get 1 6 ∷ (lock 8 1 ∷ (load 1 ∷ [])))))))

serve_all_lru_example :
    Agree (serve_all requests (binit at_boot)) (lru_serve_all requests (view order (binit at_boot)))
serve_all_lru_example =
    serve_all-Refines requests (record { full = binit-Full at_boot; same = refl })
      (tt, (tt, (tt, (tt, (omega arith, (tt, (tt, (tt, tt))))))))

-- Without devices no block has a buffer.
no_blocks : Unique (binit at_boot).bufs
unfolding binit binit_loop push_front
no_blocks b c lt lt' ne same same' = absurd (ne refl)

bget_find_example : Gets 1 5 order (binit at_boot).bufs (bget_find 1 5 (binit at_boot))
bget_find_example = bget_find-Unique 1 5 (binit-Full at_boot) no_blocks
