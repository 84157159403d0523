-- ===== src/Ui.antt =====
-- src/ui.rs: the console UI.
pub mod Terminal
pub mod Stage
pub mod Target
pub mod Run
pub mod Program
