-- ===== src/Guest/Command/Updates.antt =====
-- Running the command sends command output alone.
use vmtest.Base.{ℕ, Text}
use vmtest.Output.{Output, command}
use vmtest.Host.{Host}
use vmtest.Host.Sends.{SendsOnly, sends_rules}
use vmtest.Qga.Version.{Version}
use vmtest.Qemu.Instance.{Qemu, CommandContext}
use vmtest.Qemu.Boot.Updates.{connect_to_uds-SendsOnly}
use vmtest.Guest.Updates.{Makes, run_in_vm-SendsOnly}
use vmtest.Guest.Command.{run_connected, run_command}

module _ (H : Host) (fuel : ℕ) (render : CommandContext → Text) (version : Version)
    {P : Output → Type 0} (h : Makes P command) where
  run_connected-SendsOnly : (q : Qemu) → SendsOnly P (run_connected H fuel render version q)
  unfolding run_connected
  run_connected-SendsOnly q =
      search (sends_rules, connect_to_uds-SendsOnly, run_in_vm-SendsOnly) depth 7

  pub run_command-SendsOnly : (q : Qemu) → SendsOnly P (run_command H fuel render version q)
  unfolding run_command
  run_command-SendsOnly q = search (sends_rules, run_connected-SendsOnly) depth 8
