-- ===== src/Guest.antt =====
-- Running processes inside the guest: `run_in_vm` of src/qemu.rs.
pub mod Poll
pub mod Mount
pub mod Command
pub mod Streams
pub mod Updates
pub mod Returns
pub mod Reported
pub mod Outcome
use vmtest.Base.{
  ℕ, zero, suc, ◌+◌, ◌*◌, List, [], ◌∷◌, ◌++◌, map, Option, none, some, Bool, true, false, ◌&&◌,
  Text, text, Result, ok, err, leb, get_or, lines, if◌then◌else◌,
}
use vmtest.Base.Integers.{ℤ, pos}
use vmtest.Output.{Output}
use vmtest.Host.{
  branch, Host, Act, GuestExec, ExecStatus, CaptureOutput, merged, flag, ◌>>=◌, ◌>>◌, pure,
  out_of_fuel, call, ask, send, context,
}
use vmtest.Qga.Version.{Version}
use vmtest.Qga.Connect.{guest_exec, guest_exec_status}

-- How the output is captured: merged if the agent's version has it.
unfoldable pub capture_mode : Version → CaptureOutput
capture_mode v = if leb 8 v.major && leb 1 v.minor then merged else flag true

-- `env::vars().map(|(k, v)| format!("{k}={v}"))`
unfoldable pub env_entries : List (Text × Text) → List Text
env_entries [] = []
env_entries ((k, v) ∷ vars) = (k ++ b'=' ∷ v) ∷ env_entries vars

-- The next pause between polls, in milliseconds.
unfoldable pub next_period : ℕ → ℕ
next_period period = if leb period 2500 then period * 2 else period

module _ {S : Type 0} where
  unfoldable pub send_lines : (Text → Output) → List Text → Act S (Unit {0})
  send_lines output [] = pure tt
  send_lines output (line ∷ rest) = do send (output line); send_lines output rest

  -- `if let Some(bytes) = captured { for each line, output(line) }`
  unfoldable pub send_captured : (Text → Output) → Option Text → Act S (Unit {0})
  unfolding send_lines lines
  send_captured output none = pure tt
  send_captured output (some captured) = send_lines output (lines captured)

  -- `if let Some(true) = truncated { output(notice) }`
  unfoldable pub send_truncation : (Text → Output) → Option Bool → Text → Act S (Unit {0})
  send_truncation output (some true) notice = send (output notice)
  send_truncation output _ notice = pure tt

  -- What `run_in_vm` hands to the caller's `output`; `sync` hands over a function that drops it.
  unfoldable pub send_status : (Text → Output) → ExecStatus → Act S (Unit {0})
  unfolding send_captured send_truncation
  send_status output status = do
    send_captured output status.out_data
    send_truncation output status.out_truncated (text "<stdout truncation>")
    send_captured output status.err_data
    send_truncation output status.err_truncated (text "<stderr truncation>")

  abbrev report_status : Option (Text → Output) → ExecStatus → Act S (Unit {0})
  report_status none status = pure tt
  report_status (some output) status = send_status output status

module _ (H : Host) where
  -- The loop that waits for the process. The clock is read only for a log message.
  unfoldable pub poll : ℕ → ℤ → ℕ → Act H.State ExecStatus
  unfolding guest_exec_status next_period
  poll zero pid period = out_of_fuel
  poll (suc fuel) pid period = do
    status ← context (text "Failed to QGA guest-exec-status") (guest_exec_status H pid)
    let again = poll fuel pid (next_period period)
    branch status.exited (pure status) (do ask (λ s. (tt, H.sleep period s)); again)

  -- The thread that streams the output of the command is modelled in Guest/Streams.
  unfoldable pub run_in_vm :
      ℕ → Version → Option (Text → Output) → Text → List Text → Bool → Act H.State ℤ
  unfolding capture_mode env_entries guest_exec poll send_status
  run_in_vm fuel version output cmd args propagate_env = do
    pid ← context (text "Failed to QGA guest-exec") (
        guest_exec H (record {
          path = cmd;
          arg = args;
          capture_output = capture_mode version;
          env = if propagate_env then some (env_entries H.env_vars) else none;
        }))
    status ← poll fuel pid 200
    report_status output status
    pure (get_or status.exitcode (pos 0))
