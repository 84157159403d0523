-- ===== src/Qga.antt =====
-- src/qga.rs
pub mod Version
pub mod Connect
