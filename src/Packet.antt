-- ===== src/Packet.antt =====
-- The packets of the protocols under pytcp/protocols: what an assembler (fpa.py) writes, and what a
-- parser (fpp.py) checks and reads.
pub mod Tcp
pub mod Udp
pub mod Ip4
pub mod Icmp4
pub mod Icmp6
pub mod Ip6
pub mod Layers
pub mod Ether
mod Tests
