-- ===== src/Fs/Mount/Cycle.antt =====
-- Mounting and unmounting (kernel/src/fs/mount.rs).
use elitra_os.Base.{
  take_all, ℕ, ◌+◌, ◌≤◌, ◌<◌, ◌≡◌, refl, true, false, some, List, [], ◌∷◌, length, if◌then◌else◌,
  arith,
}
use elitra_os.Fs.Mount.{
  Text, MountInfo, same_text, fill_slot, mount_mount, clear_slot, mount_umount, mount_count,
}

-- the mounts that there are
unfoldable pub active : List MountInfo → List MountInfo
active [] = []
active (m ∷ ms) = if m.used then m ∷ active ms else active ms

pub same_text_self : (p : Text) → same_text p p ≡ true
unfolding same_text
same_text_self [] = refl
same_text_self (x ∷ xs) = ground (arith, same_text_self xs)

clear-fill :
    (p : Text) (type_ instance_ptr : ℕ) (ms : List MountInfo)
    → length p ≤ 127
    → (fill_slot p type_ instance_ptr ms).1 ≡ true
    → (clear_slot p ms).1 ≡ false
    → let filled = (fill_slot p type_ instance_ptr ms).0 in
      (mount_count filled ≡ mount_count ms + 1)
      × ((clear_slot p filled).1 ≡ true)
      × (active (clear_slot p filled).0 ≡ active ms)
unfolding fill_slot clear_slot active mount_count
clear-fill p type_ instance_ptr [] l h k = cc
clear-fill p type_ instance_ptr (m ∷ ms) l h k =
    ground
      (arith, l, h, k, same_text_self p, take_all 127 p l, clear-fill p type_ instance_ptr ms l)

-- Where no mount has the name, of 1 to 127 bytes, and mounting succeeds, there is one mount more
-- after it, and unmounting it succeeds and leaves the mounts as they were.
pub mount_umount-mount_mount :
    (x : ℕ) (xs : Text) (type_ instance_ptr : ℕ) (ms : List MountInfo)
    → length xs < 127
    → (mount_mount (some (x ∷ xs)) type_ instance_ptr ms).1 ≡ true
    → (mount_umount (some (x ∷ xs)) ms).1 ≡ false
    → let mounted = (mount_mount (some (x ∷ xs)) type_ instance_ptr ms).0 in
      (mount_count mounted ≡ mount_count ms + 1)
      × ((mount_umount (some (x ∷ xs)) mounted).1 ≡ true)
      × (active (mount_umount (some (x ∷ xs)) mounted).0 ≡ active ms)
unfolding mount_mount mount_umount
mount_umount-mount_mount x xs type_ instance_ptr ms l h k =
    clear-fill (x ∷ xs) type_ instance_ptr ms (omega arith) h k
