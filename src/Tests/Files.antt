-- ===== src/Tests/Files.antt =====
-- Runs of the file system, its descriptors and its pipes (kernel/src/fs/vfs.rs) at concrete inputs.

use mathlib.Core.Option.{some-injective}
use elitra_os.Base.{
  ℕ, ◌/◌, ◌%◌, ◌≤◌, ◌<◌, ◌≡◌, refl, true, Option, none, some, [], ◌∷◌, length, ◌==◌, if◌then◌else◌,
  arith, ◌⊎◌, inl, inr, Bool-cases,
}
use elitra_os.Fs.Mount.{Text, same_text}
use elitra_os.Fs.Vfs.{
  VNode, Vfs, User, node_dir, node_file, mode_of, check_permission, child_named, find_child,
  skip_slashes, segment, after_segment, into_child, enter, turn, resolve_path_inner, resolve_path,
  before_last_slash, resolve_parent, name_from, extract_name, vfs_resolve, new_node,
}
use elitra_os.Fs.Vfs.Search.{resolve_path_inner_ends}
use elitra_os.Fs.Vfs.Make.{parent_dir, attach_new, create_dir_in, create_dir}
use elitra_os.Fs.Vfs.Make.Extends.{Each, IsClosed}
use elitra_os.Fs.Vfs.Make.Dir.{create_dir_lem}
use elitra_os.Fs.Vfs.Remove.{is_root}
use elitra_os.Fs.Vfs.Attributes.{FileStat, with_mode, may_chmod, below_root, vfs_chmod, vfs_stat}
use elitra_os.Fs.Vfs.Attributes.Mode.{vfs_stat-vfs_chmod}

abbrev user : Option User
user = some (record { uid = 7; gid = 7 })

-- a file `a` in a root that everyone may write
abbrev leaf : VNode
leaf = record (new_node user (97 ∷ []) node_file) { parent = some 1 }

abbrev root_dir : VNode
root_dir = record (new_node none [] node_dir) { parent = some 1; children = 2 ∷ []; mode = 511 }

abbrev vfs : Vfs
vfs = record { node = λ i. if i == 1 then root_dir else leaf; root = some 1 }

abbrev path_a : Text
path_a = 47 ∷ 97 ∷ []

abbrev path_d : Text
path_d = 47 ∷ 100 ∷ []

resolve_path_inner_ends_example :
    resolve_path_inner 5000 vfs (some 1) path_a 0 ≡ some (resolve_path vfs (some 1) path_a)
resolve_path_inner_ends_example = resolve_path_inner_ends 5000 vfs (some 1) path_a (omega arith)

abbrev Low : ℕ → Type 0
Low i = i < 3

root-Low : (r : ℕ) → some 1 ≡ some r → Low r
root-Low r e = omega (arith, some-injective 1 r e)

parent-Low : (b p : ℕ) → (vfs.node b).parent ≡ some p → Low p
parent-Low b p e = elim (Bool-cases (b == 1)) [
  | inl t ↦ root-Low p (rw t at e)
  | inr f ↦ root-Low p (rw f at e)
]

children-Low : (b : ℕ) → Each Low (vfs.node b).children
children-Low b = elim (Bool-cases (b == 1)) [ inl t ↦ rw t (omega arith, tt) | inr f ↦ rw f tt ]

Low-IsClosed : IsClosed Low vfs
Low-IsClosed = record {
  rooted = λ r e. root-Low r e;
  parents = λ b p l e. parent-Low b p e;
  children = λ b l. children-Low b;
}

made_d : (create_dir user (some 5) vfs (some path_d)).1 ≡ true
unfolding create_dir create_dir_in attach_new parent_dir resolve_parent before_last_slash
    resolve_path resolve_path_inner turn enter skip_slashes extract_name name_from check_permission
    find_child child_named same_text
made_d = refl

short_d : length (extract_name path_d) ≤ 63
unfolding extract_name name_from
short_d = omega arith

abbrev with_d : Vfs
with_d = (create_dir user (some 5) vfs (some path_d)).0

create_dir_lem_example :
    ((q : Option Text) (r : ℕ) → vfs_resolve vfs q ≡ some r → vfs_resolve with_d q ≡ some r)
    × ((d : ℕ) × (resolve_parent vfs path_d ≡ some d)
        × (find_child with_d.node d (extract_name path_d) ≡ some 5)
        × (find_child with_d.node 5 (46 ∷ 46 ∷ []) ≡ some d))
    × IsClosed (λ i. Low i ⊎ (i ≡ 5)) with_d
create_dir_lem_example =
    create_dir_lem Low user 5 vfs path_d Low-IsClosed (omega arith) short_d made_d

abbrev stat_a : FileStat
stat_a = record { type_ = 0; size = 0; name = 97 ∷ []; uid = 7; gid = 7; mode = 33188 }

changed_a : (vfs_chmod user vfs (some path_a) 416).1 ≡ true
unfolding vfs_chmod below_root is_root may_chmod vfs_resolve resolve_path resolve_path_inner turn
    enter into_child after_segment segment skip_slashes find_child child_named same_text
changed_a = refl

is_stat_a : vfs_stat vfs (some path_a) ≡ some stat_a
unfolding vfs_stat mode_of vfs_resolve resolve_path resolve_path_inner turn enter into_child
    after_segment segment skip_slashes find_child child_named same_text
is_stat_a = refl

abbrev with_mode_a : Vfs
with_mode_a = (vfs_chmod user vfs (some path_a) 416).0

vfs_stat-vfs_chmod_example :
    (vfs_stat with_mode_a (some path_a) ≡ some (record stat_a { mode = with_mode 33188 416 }))
    × (with_mode 33188 416 / 4096 ≡ 33188 / 4096)
    × (with_mode 33188 416 % 4096 ≡ 416 % 4096)
    × ((q : Option Text) (r : ℕ) → vfs_resolve vfs q ≡ some r → vfs_resolve with_mode_a q ≡ some r)
vfs_stat-vfs_chmod_example = vfs_stat-vfs_chmod user vfs path_a 416 stat_a changed_a is_stat_a
