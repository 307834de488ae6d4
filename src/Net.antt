-- ===== src/Net.antt =====
-- kernel/src/net: packets and the connection state machine.
pub mod Wire
pub mod Checksum
pub mod Ethernet
pub mod Arp
pub mod Ipv4
pub mod Icmp
pub mod Udp
pub mod Dns
pub mod Dhcp
pub mod Segment
pub mod Tcp
pub mod Socket
