-- ===== src/Path.antt =====
-- kernel/fs.c: path names. A path is its bytes before the NUL; a name that fills `name` has no NUL.
pub mod Elements
pub mod Walk
use proj.Common.{
  ℕ, zero, suc, ◌+◌, ◌-◌, Bool, true, false, not, ◌&&◌, ◌||◌, Option, none, some, List, [], ◌∷◌,
  ◌++◌, length, take, Run, ok, panic, blocked, ◌>>=◌, ◌>>◌, panic_if, ◌==◌, ltb, if◌then◌else◌,
}
use proj.Itable.{Itable, iget, idup, ilock, iunlock, iput, iunlockput}

-- `'/'`
abbrev pub slash : ℕ
slash = 47

abbrev pub dirsiz : ℕ
dirsiz = 14

abbrev pub t_dir : ℕ
t_dir = 1

-- `while(*path == '/') path++`
abbrev pub skip_slashes : List ℕ → List ℕ
skip_slashes [] = []
skip_slashes (c ∷ cs) = if c == slash then skip_slashes cs else c ∷ cs

-- `while(*path != '/' && *path != 0) path++`: what was passed and what is left.
abbrev pub skip_name : List ℕ → List ℕ × List ℕ
skip_name [] = ([], [])
skip_name (c ∷ cs) =
    let (name, rest) = skip_name cs in if c == slash then ([], c ∷ cs) else (c ∷ name, rest)

abbrev pub cut_name : List ℕ → Option (List ℕ × List ℕ)
cut_name [] = none
cut_name (c ∷ cs) =
    let (name, rest) = skip_name (c ∷ cs) in some (skip_slashes rest, take dirsiz name)

-- The path left and the name, or none where `skipelem` returns 0.
unfoldable pub skipelem : List ℕ → Option (List ℕ × List ℕ)
skipelem path = cut_name (skip_slashes path)

abbrev pub same_name : List ℕ → List ℕ → Bool
same_name [] [] = true
same_name [] (y ∷ ys) = false
same_name (x ∷ xs) [] = false
same_name (x ∷ xs) (y ∷ ys) = (x == y) && same_name xs ys

-- `namecmp(s, t) == 0`: `strncmp` of at most DIRSIZ bytes.
abbrev pub namecmp_zero : List ℕ → List ℕ → Bool
namecmp_zero s t = same_name (take dirsiz s) (take dirsiz t)

-- `struct dirent`: the number of an inode, 0 in an empty entry, and a name.
pub record Dirent : Type 0 where
  pub inum : ℕ
  pub name : List ℕ

-- The number in the first entry with the name.
unfoldable pub find_entry : List ℕ → List Dirent → Option ℕ
find_entry name [] = none
find_entry name (de ∷ des) =
    if not (de.inum == 0) && namecmp_zero name de.name then some de.inum else find_entry name des

abbrev pub some_next : ℕ × Itable → Run (Option ℕ × Itable)
some_next (i, t) = ok (some i, t)

abbrev pub get_entry : ℕ → Option ℕ → Itable → Run (Option ℕ × Itable)
get_entry dev none t = ok (none, t)
get_entry dev (some inum) t = iget dev inum t >>= some_next

-- `entries` are the entries that `readi` reads from a directory, by the number of its inode.
unfoldable pub dirlookup : (ℕ → List Dirent) → ℕ → List ℕ → Itable → Run (Option ℕ × Itable)
unfolding find_entry iget
dirlookup entries dp name t = do
  panic_if (not ((t.ip dp).type == t_dir))
  get_entry (t.dev dp) (find_entry name (entries (t.ip dp).inum)) t

-- What one turn of the loop of `namex` comes to: the inode to go on from, or the end with what is
-- returned.
pub data Turn : Type 0 where
  onward : ℕ → Turn
  stop : Option ℕ → Turn

abbrev pub stop_with : Option ℕ → Itable → Run (Turn × Itable)
stop_with r t = ok (stop r, t)

abbrev pub namex_next : ℕ → ℕ → Option ℕ × Itable → Run (Turn × Itable)
namex_next pid ip (none, t) = iunlockput pid ip t >>= stop_with none
namex_next pid ip (some next, t) = iunlockput pid ip t >>= λ t'. ok (onward next, t')

-- The body of the loop on `name`; `last` says whether the path is at its end, `parent` is
-- `nameiparent`.
unfoldable pub namex_turn :
    (ℕ → List Dirent) → ℕ → Bool → Bool → List ℕ → ℕ → Itable → Run (Turn × Itable)
unfolding ilock iunlock iunlockput dirlookup
namex_turn entries pid parent last name ip t = do
  t₁ ← ilock pid ip t
  if not ((t₁.ip ip).type == t_dir)
      then iunlockput pid ip t₁ >>= stop_with none
      else (if parent && last
          then iunlock pid ip t₁ >>= stop_with (some ip)
          else dirlookup entries ip name t₁ >>= namex_next pid ip)

-- What `namex` returns: the inode if there is one, and what it left in `name`.
abbrev pub Found : Type 0
Found = Option ℕ × List ℕ

-- The end of the path: with `nameiparent` there is no parent.
unfoldable pub namex_end : ℕ → Bool → List ℕ → ℕ → Itable → Run (Found × Itable)
unfolding iput
namex_end pid parent name ip t =
    if parent then (iput pid ip t >>= λ t'. ok ((none, name), t')) else ok ((some ip, name), t)

-- `*path == '\0'`
abbrev pub at_end {ℓ} : {A : Type ℓ} → List A → Bool
at_end [] = true
at_end (c ∷ cs) = false

abbrev pub turn_then :
    List ℕ → (ℕ → Itable → Run (Found × Itable)) → Turn × Itable → Run (Found × Itable)
turn_then name k (onward next, t) = k next t
turn_then name k (stop r, t) = ok ((r, name), t)

-- `while((path = skipelem(path, name)) != 0)`
abbrev pub while_some {ℓ} : {A : Type ℓ} → Option (List ℕ × List ℕ) → A → (List ℕ → List ℕ → A) → A
while_some none end body = end
while_some (some (rest, name)) end body = body rest name

-- The loop, on fuel; `old` is what `name` holds.
unfoldable pub namex_loop :
    (ℕ → List Dirent) → ℕ → Bool → ℕ → List ℕ → List ℕ → ℕ → Itable → Run (Found × Itable)
unfolding namex_turn namex_end skipelem
namex_loop entries pid parent zero path old ip t = blocked
namex_loop entries pid parent (suc fuel) path old ip t =
    while_some (skipelem path) (namex_end pid parent old ip t) (λ rest name.
      namex_turn entries pid parent (at_end rest) name ip t
      >>= turn_then name (λ next t'. namex_loop entries pid parent fuel rest name next t'))

-- The inode that the path starts from; `cwd` is `myproc()->cwd`.
unfoldable pub namex_start : ℕ → List ℕ → Itable → Run (ℕ × Itable)
unfolding iget idup
namex_start cwd [] t = ok (cwd, idup cwd t)
namex_start cwd (c ∷ cs) t = if c == slash then iget 1 1 t else ok (cwd, idup cwd t)

-- Every turn shortens the path. `name` is empty at first, as far as is known.
unfoldable pub namex : (ℕ → List Dirent) → ℕ → Bool → ℕ → List ℕ → Itable → Run (Found × Itable)
unfolding namex_loop namex_start
namex entries pid parent cwd path t = namex_start cwd path t >>= λ (ip, t').
    namex_loop entries pid parent (length path + 1) path [] ip t'

unfoldable pub namei : (ℕ → List Dirent) → ℕ → ℕ → List ℕ → Itable → Run (Option ℕ × Itable)
unfolding namex
namei entries pid cwd path t = namex entries pid false cwd path t >>= λ (r, t'). ok (r.0, t')

unfoldable pub nameiparent : (ℕ → List Dirent) → ℕ → ℕ → List ℕ → Itable → Run (Found × Itable)
unfolding namex
nameiparent entries pid cwd path t = namex entries pid true cwd path t
