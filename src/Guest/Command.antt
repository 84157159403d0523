-- ===== src/Guest/Command.antt =====
-- `run_command` of src/qemu.rs. The template engine is a parameter.
pub mod Timeout
pub mod Updates
pub mod Ran
use vmtest.Base.{ℕ, List, [], ◌∷◌, Option, none, some, Text, text, not}
use vmtest.Base.Integers.{ℤ}
use vmtest.Output.{Output, command}
use vmtest.Host.{Host, Act, ◌>>=◌, ◌>>◌, call, context, finally, ignore_error}
use vmtest.Qga.Version.{Version}
use vmtest.Guest.{run_in_vm}
use vmtest.Qemu.Instance.{Qemu, CommandContext, command_context}
use vmtest.Qemu.Boot.{connect_to_uds}

module _ (H : Host) (fuel : ℕ) (render : CommandContext → Text) (version : Version) where
  -- What runs between the change of the read timeout and its restoration.
  unfoldable pub run_connected : Qemu → Act H.State ℤ
  unfolding connect_to_uds run_in_vm command_context
  run_connected q = do
    call (H.set_read_timeout none)
    context (text "Failed to connect to command output socket")
        (connect_to_uds H fuel q.socks.command)
    run_in_vm H fuel version (some command) (text "bash")
        (text "-c" ∷ render (command_context q) ∷ []) (not q.image)

  unfoldable pub run_command : Qemu → Act H.State ℤ
  unfolding run_connected
  run_command q = do
    old_timeout ← call H.read_timeout
    finally (run_connected q) (ignore_error (call (H.set_read_timeout old_timeout)))
