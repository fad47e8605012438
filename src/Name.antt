-- ===== src/Name.antt =====
-- crates/bindizr-core/src/dns/name: domain names as decoded labels.
pub mod Label
pub mod Decode
pub mod Zone
pub mod Owner
