-- ===== src/Drivers/Block/Names.antt =====
-- The names of block devices (kernel/src/drivers/storage/block.rs).
use mathlib.Core.Option.{some-injective}
use elitra_os.Base.{
  ℕ, zero, suc, ◌+◌, ◌%◌, ◌≤◌, ◌<◌, ◌≡◌, ◌∙◌, refl, ap, Bool, true, false, Option, none, some, List,
  [], ◌∷◌, ◌++◌, length, take, get_elem?, leb, ◌==◌, ◌&&◌, if◌then◌else◌, arith, inl, inr,
  Bool-cases, length-append,
}
use elitra_os.Fs.Mount.{Text, is_prefix}
use elitra_os.Drivers.Block.{
  BlockDevice, BlockDriverType, Hardware, register_block_device, is_named, find_device, sd_name,
  ata_device, other_device, add, detect_ata, detect_ahci, detect_usb, usb_device, nvme_device,
  virtio_device, detect_all_devices,
}

find_device-append :
    (name : Text) (ds es : List BlockDevice) (d : BlockDevice)
    → find_device name ds ≡ some d
    → find_device name (ds ++ es) ≡ some d
unfolding find_device
find_device-append name [] es d e = absurd (cc e)
find_device-append name (x ∷ ds) es d e = elim (Bool-cases (is_named name x)) [
  | inl t ↦ rw t (rw t at e)
  | inr f ↦ rw f (find_device-append name ds es d (rw f at e))
]

-- A device that is found is found after another was registered.
add_kept :
    (name : Text) (o : Option BlockDevice) (ds : List BlockDevice) (d : BlockDevice)
    → find_device name ds ≡ some d
    → find_device name (add o ds) ≡ some d
unfolding register_block_device
add_kept name none ds d e = e
add_kept name (some dev) ds d e = elim (Bool-cases (leb 16 (length ds))) [
  | inl t ↦ rw (add, register_block_device, t) e
  | inr f ↦ rw (add, register_block_device, f) (find_device-append name ds _ d e)
]

module _ (hw : Hardware) (name : Text) (d : BlockDevice) where
  ata_kept :
      (i : ℕ) (drives : List (Option ℕ)) (ds : List BlockDevice)
      → find_device name ds ≡ some d
      → find_device name (detect_ata hw i drives ds) ≡ some d
  unfolding detect_ata
  ata_kept i [] ds e = e
  ata_kept i (none ∷ drives) ds e = ata_kept (suc i) drives ds e
  ata_kept i (some s ∷ drives) ds e =
      ata_kept (suc i) drives (add (some (ata_device hw i s)) ds)
        (add_kept name (some (ata_device hw i s)) ds d e)

  abbrev ahci_device : ℕ → ℕ → BlockDevice
  ahci_device i s = other_device hw BlockDriverType.ahci (sd_name ((8 + i) % 256)) i 512 s none

  ahci_kept :
      (i : ℕ) (drives : List (Option ℕ)) (ds : List BlockDevice)
      → find_device name ds ≡ some d
      → find_device name (detect_ahci hw i drives ds) ≡ some d
  unfolding detect_ahci
  ahci_kept i [] ds e = e
  ahci_kept i (none ∷ drives) ds e = ahci_kept (suc i) drives ds e
  ahci_kept i (some s ∷ drives) ds e =
      ahci_kept (suc i) drives (add (some (ahci_device i s)) ds)
        (add_kept name (some (ahci_device i s)) ds d e)

  usb_kept :
      (i : ℕ) (drives : List (Option (ℕ × ℕ))) (ds : List BlockDevice)
      → find_device name ds ≡ some d
      → find_device name (detect_usb hw i drives ds) ≡ some d
  unfolding detect_usb
  usb_kept i [] ds e = e
  usb_kept i (none ∷ drives) ds e = usb_kept (suc i) drives ds e
  usb_kept i (some s ∷ drives) ds e =
      usb_kept (suc i) drives (add (usb_device hw i s) ds)
        (add_kept name (usb_device hw i s) ds d e)

and_true : (b : Bool) → (b && true) ≡ b
and_true true = refl
and_true false = refl

-- A name of three letters is that of a device with these letters, and of no other.
named_letter :
    (hw : Hardware) (i s letter : ℕ)
    → i < 16
    → is_named (sd_name letter) (ata_device hw i s) ≡ (letter == 97 + i)
unfolding is_named is_prefix
named_letter hw i s letter h =
    let e : (97 + i) % 256 ≡ 97 + i = omega (arith, h) in
    rw (is_named, is_prefix, e) (and_true (letter == 97 + i))

find_device-snoc :
    (name : Text) (ds : List BlockDevice) (d : BlockDevice)
    → find_device name ds ≡ none
    → find_device name (ds ++ d ∷ []) ≡ (if is_named name d then some d else none)
unfolding find_device
find_device-snoc name [] d e = refl
find_device-snoc name (x ∷ ds) d e = elim (Bool-cases (is_named name x)) [
  | inl t ↦ absurd (cc (rw t at e))
  | inr f ↦ rw f (find_device-snoc name ds d (rw f at e))
]

add_roomy :
    (dev : BlockDevice) (ds : List BlockDevice)
    → length ds < 16
    → take 31 dev.name ≡ dev.name
    → add (some dev) ds ≡ ds ++ dev ∷ []
unfolding register_block_device
add_roomy dev ds h e =
    let room : leb 16 (length ds) ≡ false = ground (arith, h) in
    rw (add, register_block_device, room, e) refl

detect_ata_found :
    (hw : Hardware) (i d s letter : ℕ) (drives : List (Option ℕ)) (ds : List BlockDevice)
    → get_elem? drives d ≡ some (some s)
    → length ds ≤ i
    → i + length drives ≤ 16
    → letter ≡ 97 + i + d
    → find_device (sd_name letter) ds ≡ none
    → find_device (sd_name letter) (detect_ata hw i drives ds) ≡ some (ata_device hw (i + d) s)
unfolding detect_ata
detect_ata_found hw i d s letter [] ds g l m n e = absurd (cc g)
detect_ata_found hw i zero s letter (none ∷ drives) ds g l m n e =
    absurd (cc (some-injective none (some s) g))
detect_ata_found hw i (suc d) s letter (none ∷ drives) ds g l m n e =
    detect_ata_found hw (suc i) d s letter drives ds g (omega (arith, l)) (omega (arith, m))
      (omega (arith, n)) e
    ∙ ap (λ k. some (ata_device hw k s)) (omega arith)
detect_ata_found hw i zero s letter (some r ∷ drives) ds g l m n e =
    let dev : BlockDevice = ata_device hw i r in
    let is_s : r ≡ s = some-injective r s (some-injective (some r) (some s) g) in
    let wanted : (letter == 97 + i) ≡ true = ground (arith, n) in
    let added = add_roomy dev ds (omega (arith, l, m)) refl in
    let found : find_device (sd_name letter) (ds ++ dev ∷ []) ≡ some dev =
      find_device-snoc (sd_name letter) ds dev e
      ∙ ap (λ b. if b then some dev else none)
          (named_letter hw i r letter (omega (arith, m)) ∙ wanted) in
    ap (λ x. find_device (sd_name letter) (detect_ata hw (suc i) drives x)) added
    ∙ ata_kept hw (sd_name letter) dev (suc i) drives (ds ++ dev ∷ []) found
    ∙ ap (λ k. some (ata_device hw i k)) is_s
    ∙ ap (λ k. some (ata_device hw k s)) (omega arith)
detect_ata_found hw i (suc d) s letter (some r ∷ drives) ds g l m n e =
    let dev : BlockDevice = ata_device hw i r in
    let other : (letter == 97 + i) ≡ false = ground (arith, n) in
    let added = add_roomy dev ds (omega (arith, l, m)) refl in
    let unknown : find_device (sd_name letter) (ds ++ dev ∷ []) ≡ none =
      find_device-snoc (sd_name letter) ds dev e
      ∙ ap (λ b. if b then some dev else none)
          (named_letter hw i r letter (omega (arith, m)) ∙ other) in
    ap (λ x. find_device (sd_name letter) (detect_ata hw (suc i) drives x)) added
    ∙ detect_ata_found hw (suc i) d s letter drives (ds ++ dev ∷ []) g
        (omega (arith, l, length-append ds (dev ∷ []))) (omega (arith, m)) (omega (arith, n))
        unknown
    ∙ ap (λ k. some (ata_device hw k s)) (omega arith)

-- After the detection into an empty table, with at most 16 ATA drives: drive `d`, if it is there,
-- is found under the name of `sd` and the `d`-th letter, whatever other devices there are.
pub find_device-detect_all_devices :
    (hw : Hardware) (d s : ℕ)
    → length hw.ata_drives ≤ 16
    → get_elem? hw.ata_drives d ≡ some (some s)
    → find_device (sd_name (97 + d)) (detect_all_devices hw []) ≡ some (ata_device hw d s)
unfolding detect_all_devices find_device
find_device-detect_all_devices hw d s h g =
    let name : Text = sd_name (97 + d) in
    let dev : BlockDevice = ata_device hw d s in
    let ata : List BlockDevice = detect_ata hw 0 hw.ata_drives [] in
    let nvme : List BlockDevice = add (nvme_device hw hw.nvme_drive) ata in
    let ahci : List BlockDevice = detect_ahci hw 0 hw.ahci_drives nvme in
    let first : find_device name ata ≡ some dev =
      detect_ata_found hw 0 d s (97 + d) hw.ata_drives [] g (omega arith) (omega (arith, h))
        (omega arith) refl
      ∙ ap (λ k. some (ata_device hw k s)) (omega arith) in
    usb_kept hw name dev 0 hw.usb_drives (add (virtio_device hw) ahci) (
      add_kept name (virtio_device hw) ahci dev (
        ahci_kept hw name dev 0 hw.ahci_drives nvme
          (add_kept name (nvme_device hw hw.nvme_drive) ata dev first)))
