-- ===== src/Service.antt =====
-- crates/bindizr-service: the service layer.
pub mod DynamicUpdate
pub mod Store
pub mod History
pub mod Writes
pub mod Error
pub mod Serial
pub mod Validation
pub mod Policy
pub mod Authorization
