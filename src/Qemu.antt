-- ===== src/Qemu.antt =====
-- src/qemu.rs
pub mod Args
pub mod Invocation
pub mod Instance
pub mod Boot
pub mod Run
pub mod Init
pub mod New
