-- ===== src/Vmtest/RunOne.antt =====
-- `setup_qemu` and `run_one` of src/vmtest.rs.
pub mod Made
pub mod Protocol
pub mod Returns
pub mod Lines
pub mod Cleanup
pub mod Reaped
pub mod Truthful
use vmtest.Base.{ℕ, List, [], ◌∷◌, Option, none, some, Text, text, Result, ok, err, get_elem?}
use vmtest.Output.{Output, boot_end}
use vmtest.Host.{Host, Act, ◌>>=◌, ◌>>◌, pure, send, attempt, context, match_result}
use vmtest.Qga.Connect.{lift}
use vmtest.Qemu.Args.{Machine}
use vmtest.Qemu.Instance.{Qemu, CommandContext}
use vmtest.Qemu.New
use vmtest.Qemu.New.{Formats}
use vmtest.Qemu.Run.{run}
use vmtest.Vmtest.Instance.{Vmtest, setup_target}

module _ (H : Host) (fuel : ℕ) (m : Machine) (fmt : Formats) (render : CommandContext → Text)
    (v : Vmtest) where
  unfoldable pub setup_qemu : ℕ → Act H.State Qemu
  unfolding setup_target New.new
  setup_qemu idx = do
    t ← lift (setup_target v idx)
    context (text "Failed to setup QEMU") (New.new H fmt m t v.base)

  unfoldable pub run_one : ℕ → Act H.State (Unit {0})
  unfolding setup_qemu run
  run_one idx = do
    result ← attempt (setup_qemu idx)
    match_result result (λ q. run H fuel m render q) (λ e. send (boot_end (err e)))
