-- ===== src/Drivers/Block.antt =====
-- kernel/src/drivers/storage/block.rs: the table of block devices. It is the list of the first
-- BLOCK_DEVICE_COUNT entries, 16 at most. A name is the list of its bytes before the zeros that fill
-- it up to 32. What the drivers find and do is an argument, `Hardware`.
pub mod Names
use elitra_os.Base.{
  ℕ, zero, suc, ◌+◌, ◌%◌, ◌^◌, Bool, true, false, Option, none, some, List, [], ◌∷◌, ◌++◌, length,
  take, replicate, get_elem?, ltb, leb, ◌==◌, if◌then◌else◌,
}
use elitra_os.Util.Klib.{ℤ, pos, negsuc}
use elitra_os.Fs.Mount.{Text, is_prefix}

abbrev pub max_block_devices : ℕ
max_block_devices = 16

pub data BlockDriverType : Type 0 where
  ata nvme ahci virtio usb : BlockDriverType

-- what a read returns, and the bytes in the buffer
abbrev pub Bytes : Type 0
Bytes = ℤ × List ℕ

pub record BlockDevice : Type 0 where
  pub name : Text
  pub driver : BlockDriverType
  pub drive_index : ℕ
  pub sector_size : ℕ
  pub total_sectors : ℕ
  pub read_fn : Option (ℕ → ℕ → ℕ → Bytes)
  pub write_fn : Option (ℕ → ℕ → ℕ → List ℕ → ℤ)
  pub flush_fn : Option (ℕ → ℤ)

-- Of each drive the sectors, with the size of a sector where it is asked for: `none` for a drive
-- that is not there or not ready.
pub record Hardware : Type 0 where
  pub ata_drives : List (Option ℕ)
  pub nvme_drive : Option (ℕ × ℕ)
  pub ahci_drives : List (Option ℕ)
  pub virtio_capacity : ℕ
  pub virtio_block_size : ℕ
  pub usb_drives : List (Option (ℕ × ℕ))
  pub ata_read : ℕ → ℕ → ℕ → Bool × List ℕ
  pub ata_write : ℕ → ℕ → ℕ → List ℕ → Bool
  pub read : BlockDriverType → ℕ → ℕ → ℕ → Bytes
  pub write : BlockDriverType → ℕ → ℕ → ℕ → List ℕ → ℤ

-- 0 or -1
abbrev pub code : Bool → ℤ
code true = pos 0
code false = negsuc 0

-- The ATA driver gets the low 32 bits of the sector and the low 8 of the count.
unfoldable pub ata_read_wrapper : Hardware → ℕ → ℕ → ℕ → Bytes
ata_read_wrapper hw drive lba count =
    let (ok, bytes) = hw.ata_read drive (lba % 2 ^ 32) (count % 256) in (code ok, bytes)

unfoldable pub ata_write_wrapper : Hardware → ℕ → ℕ → ℕ → List ℕ → ℤ
ata_write_wrapper hw drive lba count buf =
    code (hw.ata_write drive (lba % 2 ^ 32) (count % 256) buf)

abbrev pub flushed : ℕ → ℤ
flushed drive = pos 0

unfoldable pub register_block_device : BlockDevice → List BlockDevice → List BlockDevice × Bool
register_block_device dev ds =
    if leb max_block_devices (length ds)
    then (ds, false)
    else (ds ++ record dev { name = take 31 dev.name } ∷ [], true)

unfoldable pub device_count : List BlockDevice → ℕ
device_count ds = length ds

unfoldable pub get_device : ℕ → List BlockDevice → Option BlockDevice
get_device index ds = get_elem? ds index

-- The 32 bytes of the name start with those that are looked for.
unfoldable pub is_named : Text → BlockDevice → Bool
is_named name dev = is_prefix name (take 32 (dev.name ++ replicate 32 0))

unfoldable pub find_device : Text → List BlockDevice → Option BlockDevice
find_device name [] = none
find_device name (d ∷ ds) =
    let rest = find_device name ds in if is_named name d then some d else rest

unfoldable pub block_read : ℕ → ℕ → ℕ → List BlockDevice → Bytes
block_read dev_index lba count ds = elim (get_elem? ds dev_index) [
  | none ↦ (negsuc 0, [])
  | some d ↦ elim d.read_fn [ none ↦ (negsuc 0, []) | some f ↦ f d.drive_index lba count ]
]

unfoldable pub block_write : ℕ → ℕ → ℕ → List ℕ → List BlockDevice → ℤ
block_write dev_index lba count buf ds = elim (get_elem? ds dev_index) [
  | none ↦ negsuc 0
  | some d ↦ elim d.write_fn [ none ↦ negsuc 0 | some f ↦ f d.drive_index lba count buf ]
]

unfoldable pub block_flush : ℕ → List BlockDevice → ℤ
block_flush dev_index ds = elim (get_elem? ds dev_index) [
  | none ↦ negsuc 0
  | some d ↦ elim d.flush_fn [ none ↦ negsuc 0 | some f ↦ f d.drive_index ]
]

-- "sd" and a letter
abbrev pub sd_name : ℕ → Text
sd_name letter = 115 ∷ 100 ∷ letter ∷ []

abbrev pub ata_device : Hardware → ℕ → ℕ → BlockDevice
ata_device hw d sectors = record {
  name = sd_name ((97 + d) % 256);
  driver = BlockDriverType.ata;
  drive_index = d;
  sector_size = 512;
  total_sectors = sectors;
  read_fn = some (ata_read_wrapper hw);
  write_fn = some (ata_write_wrapper hw);
  flush_fn = some flushed;
}

-- The other drivers' devices; the wrappers of NVMe and VirtIO leave the index of the drive out.
abbrev pub other_device :
    Hardware → BlockDriverType → Text → ℕ → ℕ → ℕ → Option (ℕ → ℤ) → BlockDevice
other_device hw driver name d size sectors flush_fn = record {
  name = name;
  driver = driver;
  drive_index = d;
  sector_size = size;
  total_sectors = sectors;
  read_fn = some (hw.read driver);
  write_fn = some (hw.write driver);
  flush_fn = flush_fn;
}

-- A device that is there is registered, whatever that returns.
abbrev pub add : Option BlockDevice → List BlockDevice → List BlockDevice
add none ds = ds
add (some dev) ds = (register_block_device dev ds).0

unfoldable pub detect_ata : Hardware → ℕ → List (Option ℕ) → List BlockDevice → List BlockDevice
detect_ata hw d [] ds = ds
detect_ata hw d (none ∷ drives) ds = detect_ata hw (suc d) drives ds
detect_ata hw d (some sectors ∷ drives) ds =
    detect_ata hw (suc d) drives (add (some (ata_device hw d sectors)) ds)

-- "nvme0n1"
unfoldable pub nvme_device : Hardware → Option (ℕ × ℕ) → Option BlockDevice
nvme_device hw none = none
nvme_device hw (some (size, sectors)) = some (
    other_device hw BlockDriverType.nvme (110 ∷ 118 ∷ 109 ∷ 101 ∷ 48 ∷ 110 ∷ 49 ∷ []) 0 size sectors
      (some flushed))

-- The letter is the byte 8 and on, and not one of the alphabet.
unfoldable pub detect_ahci : Hardware → ℕ → List (Option ℕ) → List BlockDevice → List BlockDevice
detect_ahci hw d [] ds = ds
detect_ahci hw d (none ∷ drives) ds = detect_ahci hw (suc d) drives ds
detect_ahci hw d (some sectors ∷ drives) ds = detect_ahci hw (suc d) drives (
    add (some (other_device hw BlockDriverType.ahci (sd_name ((8 + d) % 256)) d 512 sectors none))
      ds)

-- "vda"
unfoldable pub virtio_device : Hardware → Option BlockDevice
virtio_device hw =
    if ltb 0 hw.virtio_capacity
    then some (
        other_device hw BlockDriverType.virtio (118 ∷ 100 ∷ 97 ∷ []) 0 hw.virtio_block_size
          hw.virtio_capacity none)
    else none

unfoldable pub usb_device : Hardware → ℕ → ℕ × ℕ → Option BlockDevice
usb_device hw d (sectors, size) =
    if sectors == 0
    then none
    else some (
        other_device hw BlockDriverType.usb (sd_name ((16 + d) % 256)) d size sectors
          (some flushed))

unfoldable pub detect_usb :
    Hardware → ℕ → List (Option (ℕ × ℕ)) → List BlockDevice → List BlockDevice
detect_usb hw d [] ds = ds
detect_usb hw d (none ∷ drives) ds = detect_usb hw (suc d) drives ds
detect_usb hw d (some drive ∷ drives) ds =
    detect_usb hw (suc d) drives (add (usb_device hw d drive) ds)

unfoldable pub detect_all_devices : Hardware → List BlockDevice → List BlockDevice
detect_all_devices hw ds =
    let with_ata = detect_ata hw 0 hw.ata_drives ds in
    let with_nvme = add (nvme_device hw hw.nvme_drive) with_ata in
    let with_ahci = detect_ahci hw 0 hw.ahci_drives with_nvme in
    let with_virtio = add (virtio_device hw) with_ahci in detect_usb hw 0 hw.usb_drives with_virtio
