-- ===== src/Tests/Library.antt =====
-- Runs of the helpers and of the table of mounts (kernel/src/util/klib.rs, kernel/src/fs/mount.rs)
-- at concrete inputs.
use elitra_os.Base.{
  ℕ, ◌+◌, ◌-◌, ◌%◌, ◌≡◌, ◌⊎◌, true, false, none, some, List, [], ◌∷◌, ◌==◌, if◌then◌else◌,
}
use elitra_os.Mm.Bitmap.{Memory}
use elitra_os.Util.Klib.{memmove}
use elitra_os.Util.Klib.Move.{inside, memmove_lem}
use elitra_os.Fs.Mount.{MountInfo, mount_find}
use elitra_os.Fs.Mount.Find.{AtMost, Longest, mount_find-Longest}

-- the text "ab" at 100 and at 200
abbrev texts : Memory
texts a = if a % 100 == 0 then 97 else if a % 100 == 1 then 98 else 0

memmove_lem_example :
    memmove texts 101 100 2 102
    ≡ (if inside 101 2 102 then texts (100 + (102 - 101)) else texts 102)
memmove_lem_example = memmove_lem texts 101 100 2 102

-- mounts at "/" and "/d", then a free slot
abbrev mounts : List MountInfo
mounts =
    record { used = true; mount_point = 47 ∷ []; type_ = 1; instance_ptr = 4096 }
    ∷ record { used = true; mount_point = 47 ∷ 100 ∷ []; type_ = 2; instance_ptr = 8192 }
    ∷ record { used = false; mount_point = []; type_ = 0; instance_ptr = 0 }
    ∷ []

mount_find-Longest_example :
    ((mount_find (some (47 ∷ 100 ∷ 47 ∷ 120 ∷ [])) mounts ≡ none)
      × AtMost (47 ∷ 100 ∷ 47 ∷ 120 ∷ []) 0 mounts)
    ⊎ ((j : ℕ) × (mount_find (some (47 ∷ 100 ∷ 47 ∷ 120 ∷ [])) mounts ≡ some j)
        × Longest (47 ∷ 100 ∷ 47 ∷ 120 ∷ []) mounts j)
mount_find-Longest_example = mount_find-Longest (47 ∷ 100 ∷ 47 ∷ 120 ∷ []) mounts
