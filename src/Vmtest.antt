-- ===== src/Vmtest.antt =====
-- src/vmtest.rs
pub mod Validate
pub mod Resolve
pub mod Instance
pub mod RunOne
pub mod Session
