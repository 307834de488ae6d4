-- ===== src/Tests/Names.antt =====
-- Runs of the names of domains, options and block devices (kernel/src/net/dns.rs, dhcp.rs and
-- drivers/storage/block.rs) at concrete inputs.
use elitra_os.Base.{
  ℕ, ◌≡◌, refl, true, none, some, List, [], ◌∷◌, ◌++◌, replicate, arith, length-replicate,
}
use elitra_os.Util.Klib.{pos}
use elitra_os.Net.Wire.{Ip, parsed}
use elitra_os.Net.Dns.{parse_dns_response}
use elitra_os.Net.Dns.Reply.{is_domain, reply_bytes, parse_dns_response-reply_bytes}
use elitra_os.Net.Dhcp.{find_option}
use elitra_os.Net.Dhcp.Options.{Options, option_bytes, place_of, find_option-place_of}
use elitra_os.Drivers.Block.{Hardware, find_device, sd_name, ata_device, detect_all_devices}
use elitra_os.Drivers.Block.Names.{find_device-detect_all_devices}

-- "a.org"
abbrev domain : List ℕ
domain = 97 ∷ 46 ∷ 111 ∷ 114 ∷ 103 ∷ []

abbrev server : Ip
server = record { a = 10; b = 0; c = 0; d = 7 }

domain-IsDomain : is_domain 0 domain ≡ true
unfolding is_domain
domain-IsDomain = refl

parse_dns_response-reply_bytes_example :
    parse_dns_response (reply_bytes 5 33152 domain 60 server) ≡ parsed server
parse_dns_response-reply_bytes_example =
    parse_dns_response-reply_bytes 5 33152 domain 60 server domain-IsDomain

-- a subnet mask and a server
abbrev options : Options
options = (1, 255 ∷ 255 ∷ 255 ∷ 0 ∷ []) ∷ (6, 10 ∷ 0 ∷ 0 ∷ 7 ∷ []) ∷ []

find_option-place_of_example :
    find_option (replicate 240 0 ++ option_bytes options (0 ∷ [])) 6 ≡ place_of 6 240 options
find_option-place_of_example =
    find_option-place_of 6 (replicate 240 0) options (0 ∷ []) (length-replicate {A = ℕ} 240 0)
      (refl, refl, (refl, refl, tt))

-- two ATA drives of four, and one of the others each
abbrev hardware : Hardware
hardware = record {
  ata_drives = none ∷ some 1000 ∷ none ∷ some 2000 ∷ [];
  nvme_drive = some (512, 4000);
  ahci_drives = some 100 ∷ [];
  virtio_capacity = 10;
  virtio_block_size = 512;
  usb_drives = some (7, 512) ∷ [];
  ata_read = λ d lba n. (true, []);
  ata_write = λ d lba n buf. true;
  read = λ k d lba n. (pos 0, []);
  write = λ k d lba n buf. pos 0;
}

find_device-detect_all_devices_example :
    find_device (sd_name 100) (detect_all_devices hardware []) ≡ some (ata_device hardware 3 2000)
find_device-detect_all_devices_example =
    find_device-detect_all_devices hardware 3 2000 (omega arith) refl
