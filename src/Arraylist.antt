-- ===== src/Arraylist.antt =====
-- user/arraylist.c: a growing array of `int`s, as 32-bit words. The cells that `malloc` returns
-- hold anything at first. What `malloc` gives is an argument: the cells, or none for a null pointer.
-- What the code does to memory through a null pointer is not followed: it is a `panic`.
pub mod Contents
use proj.Common.{
  ◌>>=◌, ◌>>◌, panic_if, not, Option, none, some, ℕ, zero, suc, ◌+◌, ◌-◌, ◌*◌, ◌%◌, ◌^◌, Bool, true,
  false, ℤ, pos, negsuc, Run, ok, panic, ◌==◌, ltb, if◌then◌else◌, put_at,
}

abbrev pub def_array_list_capacity : ℕ
def_array_list_capacity = 4

-- `struct arraylist`.
pub record Arraylist : Type 0 where
  pub size : ℕ
  pub capacity : ℕ
  pub list : Option (ℕ → ℕ)

-- `has_struct` is whether `malloc` gives memory for the structure.
unfoldable pub al_new : Bool → Option (ℕ → ℕ) → Run Arraylist
al_new has_struct cells = do
  panic_if (not has_struct)
  ok (record { size = 0; capacity = def_array_list_capacity; list = cells })

abbrev pub read_cell : ℕ → Option (ℕ → ℕ) → Run ℕ
read_cell n none = panic
read_cell n (some list) = ok (list n)

-- A read before the array is undefined.
unfoldable pub al_get_at : Arraylist → ℤ → Run ℕ
al_get_at al (negsuc n) = panic
al_get_at al (pos n) = if ltb n al.size then read_cell n al.list else ok (2 ^ 32 - 1)

-- The loop of `al_resize` over `n` elements from `i` on.
unfoldable pub copy : ℕ → ℕ → (ℕ → ℕ) → (ℕ → ℕ) → ℕ → ℕ
copy zero i from to = to
copy (suc n) i from to = copy n (i + 1) from (put_at to i (from i))

-- The loop of `al_resize`: without elements it touches no memory.
abbrev pub copy_list : ℕ → Option (ℕ → ℕ) → Option (ℕ → ℕ) → Run (Option (ℕ → ℕ))
copy_list zero from to = ok to
copy_list (suc n) (some from) (some to) = ok (some (copy (suc n) 0 from to))
copy_list (suc n) _ _ = panic

unfoldable pub al_resize : Option (ℕ → ℕ) → Arraylist → Run Arraylist
unfolding copy
al_resize cells al = copy_list al.size al.list cells >>= λ list.
    ok (record al { list = list; capacity = (2 * al.capacity) % 2 ^ 32 })

abbrev pub write_cell : ℕ → ℕ → Option (ℕ → ℕ) → Run (Option (ℕ → ℕ))
write_cell n val none = panic
write_cell n val (some list) = ok (some (put_at list n val))

-- `al->list[al->size] = val; al->size = al->size + 1`
abbrev pub put_last : ℕ → Arraylist → Run Arraylist
put_last val al = write_cell al.size val al.list >>= λ list.
    ok (record al { list = list; size = (al.size + 1) % 2 ^ 32 })

unfoldable pub al_append : Option (ℕ → ℕ) → ℕ → Arraylist → Run Arraylist
unfolding al_resize
al_append cells val al =
    (if al.size == al.capacity then al_resize cells al else ok al) >>= put_last val
