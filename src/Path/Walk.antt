-- ===== src/Path/Walk.antt =====
-- kernel/fs.c: `namex` walks along the names of the path.
use proj.Common.{
  ◌∙◌, get_or, if◌then◌else◌, not, ◌&&◌, Bool-cases, true, false, Option, none, some, ok, panic,
  blocked, ◌==◌, ℕ, zero, suc, ◌+◌, ◌<◌, ◌≡◌, refl, ap, subst, fun_ext, Bool, List, [], ◌∷◌, length,
  Run, ◌>>=◌, arith, Option-cases, inl, inr,
}
use proj.Itable.{Itable, ilock, iunlock, iput, iunlockput, iget, idup}
use proj.Path.{
  t_dir, Dirent, Found, onward, stop_with, namex_next, dirlookup, skipelem, at_end, turn_then,
  namex_turn, namex_end, namex_loop, namex_start, namex,
}
use proj.Path.Elements.{elements, Skipped, skipelem-Skipped}

-- What is returned with the name, in a table.
abbrev done : Option ℕ → List ℕ → Itable → Run (Found × Itable)
done r name t = ok ((r, name), t)

-- The walk ends where there was no entry with the name, and else goes on from its inode.
abbrev go_on :
    List ℕ → (ℕ → Itable → Run (Found × Itable)) → Option ℕ → Itable → Run (Found × Itable)
go_on name k none t = done none name t
go_on name k (some next) t = k next t

-- The walk from inode `ip` along the names; `old` is the name before. An inode is locked for its
-- turn, and a turn gives it back: unlocked and still referred to, where it is the parent that is
-- asked for, else unlocked and put. One that is no directory ends the walk. At the end of the names
-- the inode is the one that is asked for, or is put where a parent is asked for.
unfoldable pub walk :
    (ℕ → List Dirent) → ℕ → Bool → List (List ℕ) → List ℕ → ℕ → Itable → Run (Found × Itable)
walk entries pid true [] old ip t = iput pid ip t >>= done none old
walk entries pid false [] old ip t = done (some ip) old t
walk entries pid parent (name ∷ ns) old ip t = ilock pid ip t >>= λ t₁.
    if (t₁.ip ip).type == t_dir
    then (if parent && at_end ns
        then iunlock pid ip t₁ >>= done (some ip) name
        else dirlookup entries ip name t₁ >>= λ (found, t₂).
            iunlockput pid ip t₂ >>= go_on name (walk entries pid parent ns name) found)
    else iunlockput pid ip t₁ >>= done none name

-- The walk from the root where the path begins with a slash, and else from the current directory,
-- with a reference of its own.
unfoldable pub walk_from : (ℕ → List Dirent) → ℕ → Bool → ℕ → List ℕ → Itable → Run (Found × Itable)
walk_from entries pid parent cwd path t =
    if get_or path 0 0 == 47
    then (iget 1 1 t >>= λ (ip, t'). walk entries pid parent (elements path) [] ip t')
    else walk entries pid parent (elements path) [] cwd (idup cwd t)

stop-then :
    (r : Option ℕ) (name : List ℕ) (k : ℕ → Itable → Run (Found × Itable)) (x : Run Itable)
    → x >>= stop_with r >>= turn_then name k ≡ x >>= done r name
stop-then r name k (ok t) = refl
stop-then r name k panic = refl
stop-then r name k blocked = refl

next-some :
    (next : ℕ) (name : List ℕ) (k : ℕ → Itable → Run (Found × Itable)) (x : Run Itable)
    → (x >>= λ t'. ok (onward next, t')) >>= turn_then name k ≡ x >>= k next
next-some next name k (ok t) = refl
next-some next name k panic = refl
next-some next name k blocked = refl

next-then :
    (pid ip : ℕ) (name : List ℕ) (k : ℕ → Itable → Run (Found × Itable))
    (x : Run (Option ℕ × Itable))
    → x >>= namex_next pid ip >>= turn_then name k
      ≡ x >>= λ (found, t₂). iunlockput pid ip t₂ >>= go_on name k found
next-then pid ip name k (ok (none, t)) = stop-then none name k (iunlockput pid ip t)
next-then pid ip name k (ok (some next, t)) = next-some next name k (iunlockput pid ip t)
next-then pid ip name k panic = refl
next-then pid ip name k blocked = refl

turn-then :
    (entries : ℕ → List Dirent) (pid : ℕ) (parent : Bool) (ns : List (List ℕ)) (name : List ℕ)
    (ip : ℕ) (x : Run Itable)
    → let k = walk entries pid parent ns name in
      (x >>= λ t₁.
      if not ((t₁.ip ip).type == t_dir)
      then iunlockput pid ip t₁ >>= stop_with none
      else (if parent && at_end ns
          then iunlock pid ip t₁ >>= stop_with (some ip)
          else dirlookup entries ip name t₁ >>= namex_next pid ip))
        >>= turn_then name k
      ≡ x >>= λ t₁.
          if (t₁.ip ip).type == t_dir
          then (if parent && at_end ns
              then iunlock pid ip t₁ >>= done (some ip) name
              else dirlookup entries ip name t₁ >>= λ (found, t₂).
                  iunlockput pid ip t₂ >>= go_on name k found)
          else iunlockput pid ip t₁ >>= done none name
turn-then entries pid parent ns name ip panic = refl
turn-then entries pid parent ns name ip blocked = refl
turn-then entries pid parent ns name ip (ok t) =
    let k = walk entries pid parent ns name in
    elim (Bool-cases ((t.ip ip).type == t_dir)) [
      | inr file ↦ rw file (stop-then none name k (iunlockput pid ip t))
      | inl dir ↦ elim (Bool-cases (parent && at_end ns)) [
        | inl last ↦ rw (dir, last) (stop-then (some ip) name k (iunlock pid ip t))
        | inr more ↦ rw (dir, more) (next-then pid ip name k (dirlookup entries ip name t))
      ]
    ]

walk-turn :
    (entries : ℕ → List Dirent) (pid : ℕ) (parent : Bool) (ns : List (List ℕ)) (name old : List ℕ)
    (ip : ℕ) (t : Itable)
    → namex_turn entries pid parent (at_end ns) name ip t
        >>= turn_then name (walk entries pid parent ns name)
      ≡ walk entries pid parent (name ∷ ns) old ip t
unfolding namex_turn walk
walk-turn entries pid parent ns name old ip t =
    turn-then entries pid parent ns name ip (ilock pid ip t)

walk-end :
    (entries : ℕ → List Dirent) (pid : ℕ) (parent : Bool) (old : List ℕ) (ip : ℕ) (t : Itable)
    → namex_end pid parent old ip t ≡ walk entries pid parent [] old ip t
unfolding namex_end walk
walk-end entries pid true old ip t = refl
walk-end entries pid false old ip t = refl

loop-walk :
    (entries : ℕ → List Dirent) (pid : ℕ) (parent : Bool) (fuel : ℕ) (path old : List ℕ) (ip : ℕ)
    (t : Itable)
    → length path < fuel
    → namex_loop entries pid parent fuel path old ip t
      ≡ walk entries pid parent (elements path) old ip t
unfolding namex_loop
loop-walk entries pid parent zero path old ip t h = absurd (omega arith)
loop-walk entries pid parent (suc fuel) path old ip t h = elim (Option-cases (skipelem path)) [
  | inl e ↦
      let s = subst (Skipped path) e (skipelem-Skipped path) in
      rw (e, s) (walk-end entries pid parent old ip t)
  | inr ((rest, name), e) ↦
      let (s, lt, end) = subst (Skipped path) e (skipelem-Skipped path) in
      let go = fun_ext (λ next.
        fun_ext (λ t'. loop-walk entries pid parent fuel rest name next t' (omega (arith, lt)))) in
      rw (e, s, end)
        (ap
            (λ k.
              namex_turn entries pid parent (at_end (elements rest)) name ip t >>= turn_then name k)
            go
          ∙ walk-turn entries pid parent (elements rest) name old ip t)
]

start-then :
    (cwd : ℕ) (path : List ℕ) (t : Itable) (f : ℕ × Itable → Run (Found × Itable))
    → namex_start cwd path t >>= f
      ≡ (if get_or path 0 0 == 47 then (iget 1 1 t >>= f) else f (cwd, idup cwd t))
unfolding namex_start
start-then cwd [] t f = refl
start-then cwd (c ∷ cs) t f = elim (Bool-cases (c == 47)) [
  | inl root ↦ rw root refl
  | inr other ↦ rw other refl
]

-- `namex` is the walk along the names of the path, each cut to DIRSIZ bytes, from the root where
-- the path starts with a slash and else from the current directory: it takes a turn for every name
-- and no more, so that its fuel suffices, and on each way out it puts or unlocks the inodes that it
-- has taken as the walk says.
pub namex-walk :
    (entries : ℕ → List Dirent) (pid : ℕ) (parent : Bool) (cwd : ℕ) (path : List ℕ) (t : Itable)
    → namex entries pid parent cwd path t ≡ walk_from entries pid parent cwd path t
unfolding namex walk_from
namex-walk entries pid parent cwd path t =
    ap (λ k. namex_start cwd path t >>= k)
      (fun_ext
        (λ (ip, t'). loop-walk entries pid parent (length path + 1) path [] ip t' (omega arith)))
    ∙ start-then cwd path t (λ (ip, t'). walk entries pid parent (elements path) [] ip t')
