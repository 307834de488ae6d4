-- ===== src/Fs/Mount.antt =====
-- kernel/src/fs/mount.rs: the table of 16 mounts. A C string is the list of its bytes before the
-- zero, a null pointer `none`; the string routines of util/klib.rs are the list operations that they
-- stand for (`strncpy` with 127 keeps the first 127 bytes, since the last byte of a name is never
-- written; `strncmp` over the length of the name is a test of the prefix).
pub mod Find
pub mod Cycle
use elitra_os.Base.{
  ℕ, zero, suc, ◌+◌, ◌-◌, Bool, true, false, ◌&&◌, Option, none, some, List, [], ◌∷◌, length, take,
  drop, replicate, get_elem?, ltb, leb, ◌==◌, if◌then◌else◌,
}

abbrev pub Text : Type 0
Text = List ℕ

pub record MountInfo : Type 0 where
  pub used : Bool
  pub mount_point : Text
  pub type_ : ℕ
  pub instance_ptr : ℕ

abbrev pub unused : MountInfo
unused = record { used = false; mount_point = []; type_ = 0; instance_ptr = 0 }

unfoldable pub mount_init : List MountInfo
mount_init = replicate 16 unused

unfoldable pub same_text : Text → Text → Bool
same_text [] [] = true
same_text [] (y ∷ ys) = false
same_text (x ∷ xs) [] = false
same_text (x ∷ xs) (y ∷ ys) = x == y && same_text xs ys

-- `none` or an empty string is refused.
abbrev pub given : Option Text → Option Text
given none = none
given (some []) = none
given (some (x ∷ xs)) = some (x ∷ xs)

-- The table, and whether the call returned 0. An unused slot keeps the name that it had.
unfoldable pub fill_slot : Text → ℕ → ℕ → List MountInfo → List MountInfo × Bool
fill_slot point type_ instance_ptr [] = ([], false)
fill_slot point type_ instance_ptr (m ∷ ms) =
    let (rest, done) = fill_slot point type_ instance_ptr ms in
    let mounted : MountInfo = record {
      used = true;
      mount_point = take 127 point;
      type_ = type_;
      instance_ptr = instance_ptr;
    } in
    if m.used then (m ∷ rest, done) else (mounted ∷ ms, true)

unfoldable pub mount_mount : Option Text → ℕ → ℕ → List MountInfo → List MountInfo × Bool
mount_mount point type_ instance_ptr ms = elim (given point) [
  | none ↦ (ms, false)
  | some p ↦ fill_slot p type_ instance_ptr ms
]

unfoldable pub clear_slot : Text → List MountInfo → List MountInfo × Bool
clear_slot point [] = ([], false)
clear_slot point (m ∷ ms) =
    let (rest, done) = clear_slot point ms in
    let cleared : MountInfo = record m { used = false; type_ = 0; instance_ptr = 0 } in
    if m.used && same_text m.mount_point point then (cleared ∷ ms, true) else (m ∷ rest, done)

unfoldable pub mount_umount : Option Text → List MountInfo → List MountInfo × Bool
mount_umount point ms = elim (given point) [ none ↦ (ms, false) | some p ↦ clear_slot p ms ]

unfoldable pub is_prefix : Text → Text → Bool
is_prefix [] path = true
is_prefix (x ∷ xs) [] = false
is_prefix (x ∷ xs) (p ∷ path) = x == p && is_prefix xs path

-- the end of the string, or a slash
unfoldable pub at_boundary : Text → Bool
at_boundary [] = true
at_boundary (b ∷ bs) = b == 47

unfoldable pub covers : Text → MountInfo → Bool
covers path m =
    m.used && is_prefix m.mount_point path && at_boundary (drop (length m.mount_point) path)

-- The loop from slot `i` on with the best slot so far.
unfoldable pub find_from : Text → ℕ → Option ℕ → ℕ → List MountInfo → Option ℕ
find_from path i best best_len [] = best
find_from path i best best_len (m ∷ ms) =
    let len = length m.mount_point in
    let kept = find_from path (suc i) best best_len ms in
    let taken = find_from path (suc i) (some i) len ms in
    if covers path m && ltb best_len len then taken else kept

-- the index of the slot whose address is returned
unfoldable pub mount_find : Option Text → List MountInfo → Option ℕ
mount_find none ms = none
mount_find (some path) ms = find_from path 0 none 0 ms

unfoldable pub mount_count : List MountInfo → ℕ
mount_count [] = 0
mount_count (m ∷ ms) = (if m.used then 1 else 0) + mount_count ms

-- A negative index is, as a u32, above every slot.
unfoldable pub mount_get : ℕ → List MountInfo → Option MountInfo
mount_get index ms = if leb 16 index then none else get_elem? ms index
