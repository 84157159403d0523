-- ===== src/Output.antt =====
-- src/output.rs: the updates that a run of a target sends.
pub mod Order
pub mod Interleave
use vmtest.Base.{Text, Result}
use vmtest.Base.Integers.{ℤ}

pub data Output : Type 0 where
  boot_start : Output
  boot : Text → Output
  boot_end : Result (Unit {0}) → Output
  setup_start : Output
  setup : Text → Output
  setup_end : Result (Unit {0}) → Output
  command_start : Output
  command : Text → Output
  command_end : Result ℤ → Output
