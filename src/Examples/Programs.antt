-- ===== src/Examples/Programs.antt =====
-- User programs at concrete inputs.
use proj.Common.{◌>>=◌, length, ℕ, ◌≤◌, ◌≡◌, ◌↔◌, true, List, [], ◌∷◌, some, ok, pos, arith}
use proj.Arraylist.{Arraylist, al_new, al_get_at}
use proj.Arraylist.Contents.{append_all, al_get_at-append_all}
use proj.Grep.{match}
use proj.Grep.Search.{Occurs, match-Occurs}
use proj.Printf.{printint}
use proj.Printf.Number.{store_string, atoi-printint}
use proj.Ulib.{atoi}

-- "^a.*$" and "abc".
match_example :
    (match (94 ∷ (97 ∷ (46 ∷ (42 ∷ (36 ∷ []))))) (97 ∷ (98 ∷ (99 ∷ []))) ≡ true)
    ↔ Occurs (94 ∷ (97 ∷ (46 ∷ (42 ∷ (36 ∷ []))))) (97 ∷ (98 ∷ (99 ∷ [])))
match_example = match-Occurs (94 ∷ (97 ∷ (46 ∷ (42 ∷ (36 ∷ []))))) (97 ∷ (98 ∷ (99 ∷ [])))

abbrev junk : ℕ → ℕ
junk i = 99

-- Five numbers, so that the array grows.
abbrev calls : List ((ℕ → ℕ) × ℕ)
calls = (junk, 10) ∷ ((junk, 11) ∷ ((junk, 12) ∷ ((junk, 13) ∷ ((junk, 14) ∷ []))))

al_get_at_example :
    (al : Arraylist) × (al_new true (some junk) >>= append_all calls ≡ ok al)
    × (al_get_at al (pos 4) ≡ ok 14)
    × (al.size ≡ 5)
    × (al.size ≤ al.capacity)
al_get_at_example = al_get_at-append_all junk calls 4 (omega arith)

atoi-printint_example :
    (out : List ℕ) × (printint 10 42 10 true ≡ some out)
    × (length out ≤ 10)
    × (atoi 11 7 (store_string 7 out (λ a. 99)) ≡ some 42)
atoi-printint_example = atoi-printint 42 7 (λ a. 99) (omega arith)
