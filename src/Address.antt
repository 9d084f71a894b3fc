-- ===== src/Address.antt =====
-- The addresses of pytcp/lib: ip4_address.py on its base classes in ip_address.py.
pub mod Ip4
pub mod Ip6
mod Tests
