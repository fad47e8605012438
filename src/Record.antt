-- ===== src/Record.antt =====
-- Record types and values: crates/bindizr-core/src/model/record and dns/record.
pub mod Mailbox
pub mod Encode
pub mod Kind
pub mod Value
pub mod Mx
pub mod Srv
pub mod Soa
pub mod Txt
pub mod Model
