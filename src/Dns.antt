-- ===== src/Dns.antt =====
-- crates/bindizr-dns: the DNS server.
pub mod Wire
pub mod Encode
pub mod Ixfr
