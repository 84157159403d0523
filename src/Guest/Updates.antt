-- ===== src/Guest/Updates.antt =====
-- Which updates the actions inside the guest send.
use vmtest.Base.Strings.Laws.{Lacks, Lacks-of_free, lines-Lacks}
use vmtest.Base.{
  lines, text, All, refl, ℕ, zero, suc, List, [], ◌∷◌, Option, none, some, Bool, true, false, Text,
}
use vmtest.Base.Integers.{ℤ}
use vmtest.Config.{Mount}
use vmtest.Output.{Output, setup}
use vmtest.Host.{Host, ExecStatus}
use vmtest.Host.Sends.{SendsOnly, sends_rules}
use vmtest.Qga.Version.{Version}
use vmtest.Qemu.Args.{Machine}
use vmtest.Guest.{poll, send_lines, send_captured, send_truncation, send_status, run_in_vm}
use vmtest.Guest.Mount.{require_zero, run_setup, mount_loop, mount_in_guest, mount_all, sync}

-- Of a text without a line feed, the output function makes an update that is allowed.
abbrev pub Makes : (Output → Type 0) → (Text → Output) → Type 0
Makes P output = (line : Text) → Lacks b'\n' line → P (output line)

stdout_notice-Lacks : Lacks b'\n' (text "<stdout truncation>")
stdout_notice-Lacks = Lacks-of_free b'\n' (text "<stdout truncation>") refl

stderr_notice-Lacks : Lacks b'\n' (text "<stderr truncation>")
stderr_notice-Lacks = Lacks-of_free b'\n' (text "<stderr truncation>") refl

module _ {S : Type 0} {P : Output → Type 0} where
  send_lines-SendsOnly :
      (output : Text → Output) (ls : List Text)
      → Makes P output
      → All (Lacks b'\n') ls
      → SendsOnly P (send_lines {S = S} output ls)
  unfolding send_lines
  send_lines-SendsOnly output [] h k = search sends_rules
  send_lines-SendsOnly output (l ∷ ls) h (k, ks) =
      let first : P (output l) = h l k in
      let rest : SendsOnly P (send_lines {S = S} output ls) = send_lines-SendsOnly output ls h ks in
      search sends_rules

  send_captured-SendsOnly :
      (output : Text → Output) (captured : Option Text)
      → Makes P output
      → SendsOnly P (send_captured {S = S} output captured)
  unfolding send_captured
  send_captured-SendsOnly output none h = search sends_rules
  send_captured-SendsOnly output (some captured) h =
      send_lines-SendsOnly output (lines captured) h (lines-Lacks captured)

  send_truncation-SendsOnly :
      (output : Text → Output) (truncated : Option Bool) (notice : Text)
      → P (output notice)
      → SendsOnly P (send_truncation {S = S} output truncated notice)
  unfolding send_truncation
  send_truncation-SendsOnly output none notice h = search sends_rules
  send_truncation-SendsOnly output (some true) notice h = search sends_rules
  send_truncation-SendsOnly output (some false) notice h = search sends_rules

  pub send_status-SendsOnly :
      (output : Text → Output) (status : ExecStatus)
      → Makes P output
      → SendsOnly P (send_status {S = S} output status)
  unfolding send_status
  send_status-SendsOnly output status h =
      let out = h (text "<stdout truncation>") stdout_notice-Lacks in
      let err = h (text "<stderr truncation>") stderr_notice-Lacks in
      search (sends_rules, send_captured-SendsOnly, send_truncation-SendsOnly) depth 8

  pub require_zero-SendsOnly :
      (message : Text) (rc : ℤ) → SendsOnly P (require_zero {S = S} message rc)
  unfolding require_zero
  require_zero-SendsOnly message rc = search sends_rules

module _ (H : Host) {P : Output → Type 0} where
  poll_step :
      (fuel : ℕ) (pid : ℤ) (period : ℕ)
      → ((next : ℕ) → SendsOnly P (poll H fuel pid next))
      → SendsOnly P (poll H (suc fuel) pid period)
  unfolding poll
  poll_step fuel pid period again = search sends_rules depth 6

  poll-SendsOnly : (fuel : ℕ) (pid : ℤ) (period : ℕ) → SendsOnly P (poll H fuel pid period)
  poll-SendsOnly zero pid period = unfold poll in search sends_rules
  poll-SendsOnly (suc fuel) pid period =
      poll_step fuel pid period (λ next. poll-SendsOnly fuel pid next)

  pub run_in_vm-SendsOnly :
      (fuel : ℕ) (version : Version) (output : Text → Output) (cmd : Text) (args : List Text)
      (env : Bool)
      → Makes P output
      → SendsOnly P (run_in_vm H fuel version (some output) cmd args env)
  unfolding run_in_vm
  run_in_vm-SendsOnly fuel version output cmd args env h =
      search (sends_rules, poll-SendsOnly, send_status-SendsOnly) depth 8

  run_silent-SendsOnly :
      (fuel : ℕ) (version : Version) (cmd : Text) (args : List Text) (env : Bool)
      → SendsOnly P (run_in_vm H fuel version none cmd args env)
  unfolding run_in_vm
  run_silent-SendsOnly fuel version cmd args env = search (sends_rules, poll-SendsOnly) depth 8

  -- `sync` drops its output.
  pub sync-SendsOnly : (fuel : ℕ) (version : Version) → SendsOnly P (sync H fuel version)
  unfolding sync
  sync-SendsOnly fuel version = search (sends_rules, run_silent-SendsOnly, require_zero-SendsOnly)

module _ (H : Host) (fuel : ℕ) (version : Version) {P : Output → Type 0} (h : Makes P setup) where
  run_setup-SendsOnly :
      (cmd : Text) (args : List Text) → SendsOnly P (run_setup H fuel version cmd args)
  unfolding run_setup
  run_setup-SendsOnly cmd args = run_in_vm-SendsOnly H fuel version setup cmd args false h

  mount_step :
      (left i : ℕ) (args : List Text) (rc : ℤ)
      → ((j : ℕ) (rc' : ℤ) → SendsOnly P (mount_loop H fuel version left j args rc'))
      → SendsOnly P (mount_loop H fuel version (suc left) i args rc)
  unfolding mount_loop
  mount_step left i args rc again = search (sends_rules, run_setup-SendsOnly) depth 6

  mount_loop-SendsOnly :
      (left i : ℕ) (args : List Text) (rc : ℤ)
      → SendsOnly P (mount_loop H fuel version left i args rc)
  mount_loop-SendsOnly zero i args rc = unfold mount_loop in search sends_rules
  mount_loop-SendsOnly (suc left) i args rc =
      mount_step left i args rc (λ j rc'. mount_loop-SendsOnly left j args rc')

  -- Mounting sends setup output alone.
  pub mount_in_guest-SendsOnly :
      (guest_path mount_tag : Text) (ro : Bool)
      → SendsOnly P (mount_in_guest H fuel version guest_path mount_tag ro)
  unfolding mount_in_guest
  mount_in_guest-SendsOnly guest_path mount_tag ro =
      search (sends_rules, run_setup-SendsOnly, mount_loop-SendsOnly, require_zero-SendsOnly) depth
        8

  mount_all_step :
      (m : Machine) (guest_path : Text) (mount : Mount) (rest : List (Text × Mount))
      → SendsOnly P (mount_all H fuel version m rest)
      → SendsOnly P (mount_all H fuel version m ((guest_path, mount) ∷ rest))
  unfolding mount_all
  mount_all_step m guest_path mount rest others = search (sends_rules, mount_in_guest-SendsOnly)

  pub mount_all-SendsOnly :
      (m : Machine) (mounts : List (Text × Mount)) → SendsOnly P (mount_all H fuel version m mounts)
  mount_all-SendsOnly m [] = unfold mount_all in search sends_rules
  mount_all-SendsOnly m ((guest_path, mount) ∷ rest) =
      mount_all_step m guest_path mount rest (mount_all-SendsOnly m rest)
