-- ===== src/Arraylist/Contents.antt =====
-- user/arraylist.c: the array is the list of what was appended.
use proj.Common.{
  some, true, Run, ◌>>=◌, ℕ, zero, suc, ◌+◌, ◌-◌, ◌*◌, ◌%◌, ◌^◌, ◌≤◌, ◌<◌, ◌≡◌, refl, sym, ◌∙◌,
  subst, List, [], ◌∷◌, ◌++◌, length, length-append, get_or, append-nil, append_assoc, pos, ok,
  arith, ◌==◌, ltb, if◌then◌else◌, put_at, Bool-cases, inl, inr,
}
use proj.Arraylist.{Arraylist, al_new, al_get_at, copy, copy_list, al_resize, put_last, al_append}

-- Within its capacity, the array holds the list, and the capacity is at most twice what is needed.
pub record Holds (al : Arraylist) (xs : List ℕ) : Type 0 where
  pub cells : ℕ → ℕ
  pub list_is : al.list ≡ some cells
  pub size_is : al.size ≡ length xs
  pub room : al.size ≤ al.capacity
  pub some_room : 0 < al.capacity
  pub bound : al.capacity ≤ 4 + 2 * length xs
  pub elements : (i : ℕ) → i < length xs → cells i ≡ get_or xs i 0

copy-before : (n i : ℕ) (from to : ℕ → ℕ) (k : ℕ) → k < i → copy n i from to k ≡ to k
unfolding copy
copy-before zero i from to k h = refl
copy-before (suc n) i from to k h =
    copy-before n (i + 1) from (put_at to i (from i)) k (omega (arith, h)) ∙ ground (arith, h)

copy-in : (n i : ℕ) (from to : ℕ → ℕ) (k : ℕ) → i ≤ k → k < i + n → copy n i from to k ≡ from k
unfolding copy
copy-in zero i from to k h h' = absurd (omega arith)
copy-in (suc n) i from to k h h' = elim (Bool-cases (k == i)) [
  | inl here ↦ copy-before n (i + 1) from (put_at to i (from i)) k (ground arith) ∙ ground arith
  | inr there ↦ copy-in n (i + 1) from (put_at to i (from i)) k (ground arith) (omega arith)
]

copy_list-some :
    (n : ℕ) (from to : ℕ → ℕ) → copy_list n (some from) (some to) ≡ ok (some (copy n 0 from to))
unfolding copy
copy_list-some zero from to = refl
copy_list-some (suc n) from to = refl

al_resize-Holds :
    (junk : ℕ → ℕ) (al : Arraylist) (xs : List ℕ)
    → Holds al xs
    → al.size ≡ al.capacity
    → length xs < 2 ^ 28
    → (al' : Arraylist) × (al_resize (some junk) al ≡ ok al')
      × Holds al' xs
      × (al'.size < al'.capacity)
unfolding al_resize
al_resize-Holds junk al xs h full small =
    let double : (2 * al.capacity) % 2 ^ 32 ≡ 2 * al.capacity = omega (arith, h.bound, small) in
    (
      record al {
        list = some (copy al.size 0 h.cells junk);
        capacity = (2 * al.capacity) % 2 ^ 32;
      },
      rw (h.list_is, copy_list-some al.size h.cells junk) refl,
      record {
        cells = copy al.size 0 h.cells junk;
        list_is = refl;
        size_is = h.size_is;
        room = rw double (omega (arith, h.room));
        some_room = rw double (omega (arith, h.some_room));
        bound = rw double (omega (arith, h.size_is, full));
        elements = λ i lt.
            copy-in al.size 0 h.cells junk i (omega arith) (omega (arith, lt, h.size_is))
            ∙ h.elements i lt;
      },
      rw double (omega (arith, h.some_room, full)),
    )

get_or-snoc : (xs : List ℕ) (v i : ℕ) → i < length xs → get_or (xs ++ (v ∷ [])) i 0 ≡ get_or xs i 0
get_or-snoc [] v i h = absurd (omega arith)
get_or-snoc (x ∷ xs) v zero h = refl
get_or-snoc (x ∷ xs) v (suc i) h = get_or-snoc xs v i (omega arith)

get_or-last : (xs : List ℕ) (v : ℕ) → get_or (xs ++ (v ∷ [])) (length xs) 0 ≡ v
get_or-last [] v = refl
get_or-last (x ∷ xs) v = get_or-last xs v

put_last-Holds :
    (v : ℕ) (al : Arraylist) (xs : List ℕ)
    → Holds al xs
    → al.size < al.capacity
    → length xs < 2 ^ 28
    → (al' : Arraylist) × (put_last v al ≡ ok al') × Holds al' (xs ++ (v ∷ []))
put_last-Holds v al xs h lt small =
    let more = length-append xs (v ∷ []) in
    (
      record al { list = some (put_at h.cells al.size v); size = (al.size + 1) % 2 ^ 32 },
      rw h.list_is refl,
      record {
        cells = put_at h.cells al.size v;
        list_is = refl;
        size_is = omega (arith, h.size_is, more, small);
        room = omega (arith, h.size_is, lt, small);
        some_room = h.some_room;
        bound = omega (arith, h.bound, more);
        elements = λ i lt'. elim (Bool-cases (i == al.size)) [
          | inl here ↦ rw here (
              subst (λ k. v ≡ get_or (xs ++ (v ∷ [])) k 0) (ground (arith, h.size_is))
                (sym (get_or-last xs v)))
          | inr there ↦
              let inside : i < length xs = ground (arith, more, h.size_is) in
              rw there (h.elements i inside ∙ sym (get_or-snoc xs v i inside))
        ];
      },
    )

-- The array after the appends, each with the cells that its `malloc` gave if it had one.
abbrev pub append_all : List ((ℕ → ℕ) × ℕ) → Arraylist → Run Arraylist
append_all [] al = ok al
append_all ((junk, v) ∷ rest) al = al_append (some junk) v al >>= append_all rest

abbrev pub appended : List ((ℕ → ℕ) × ℕ) → List ℕ
appended [] = []
appended ((junk, v) ∷ rest) = v ∷ appended rest

al_append-Holds :
    (junk : ℕ → ℕ) (v : ℕ) (al : Arraylist) (xs : List ℕ)
    → Holds al xs
    → length xs < 2 ^ 28
    → (al' : Arraylist) × (al_append (some junk) v al ≡ ok al') × Holds al' (xs ++ (v ∷ []))
unfolding al_append
al_append-Holds junk v al xs h small = elim (Bool-cases (al.size == al.capacity)) [
  | inl full ↦
      let (al', e, h', lt) = al_resize-Holds junk al xs h (ground arith) small in
      rw (full, e) (put_last-Holds v al' xs h' lt small)
  | inr fits ↦ rw fits (put_last-Holds v al xs h (ground (arith, h.room)) small)
]

append_all-Holds :
    (calls : List ((ℕ → ℕ) × ℕ)) (al : Arraylist) (xs : List ℕ)
    → Holds al xs
    → length xs + length calls < 2 ^ 28
    → (al' : Arraylist) × (append_all calls al ≡ ok al') × Holds al' (xs ++ appended calls)
append_all-Holds [] al xs h small = (al, refl, rw (append-nil xs) h)
append_all-Holds ((junk, v) ∷ rest) al xs h small =
    let (al', e, h') = al_append-Holds junk v al xs h (omega (arith, small)) in
    let (al'', e', h'') =
      append_all-Holds rest al' (xs ++ (v ∷ [])) h' (omega (arith, length-append xs (v ∷ []))) in
    (al'', rw e e', subst (Holds al'') (append_assoc xs (v ∷ []) (appended rest)) h'')

al_new-Holds : (junk : ℕ → ℕ) → (al : Arraylist) × (al_new true (some junk) ≡ ok al) × Holds al []
unfolding al_new
al_new-Holds junk = (
  record { size = 0; capacity = 4; list = some junk },
  refl,
  record {
    cells = junk;
    list_is = refl;
    size_is = refl;
    room = omega arith;
    some_room = omega arith;
    bound = omega arith;
    elements = λ i lt. absurd (omega arith);
  },
)

-- A new array to which fewer than 2 ^ 28 numbers are appended, where every `malloc` gives memory,
-- whatever its cells hold: the calls return, and then `al_get_at` returns at each position below
-- their number the one appended there, and 0xffffffff behind them; the size is their number, and
-- the array was large enough.
pub al_get_at-append_all :
    (junk : ℕ → ℕ) (calls : List ((ℕ → ℕ) × ℕ)) (i : ℕ)
    → length calls < 2 ^ 28
    → let xs = appended calls in
      (al : Arraylist) × (al_new true (some junk) >>= append_all calls ≡ ok al)
      × (al_get_at al (pos i) ≡ ok (if ltb i (length xs) then get_or xs i 0 else 2 ^ 32 - 1))
      × (al.size ≡ length xs)
      × (al.size ≤ al.capacity)
unfolding al_get_at
al_get_at-append_all junk calls i small =
    let (new, e, h) = al_new-Holds junk in
    let (al, e', h') = append_all-Holds calls new [] h (omega (arith, small)) in
    (
      al,
      rw e e',
      rw h'.size_is (elim (Bool-cases (ltb i (length (appended calls)))) [
        | inl lt ↦ rw (lt, h'.list_is, h'.elements i (ground arith)) refl
        | inr ge ↦ rw ge refl
      ]),
      h'.size_is,
      h'.room,
    )
