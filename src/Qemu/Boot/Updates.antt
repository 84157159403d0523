-- ===== src/Qemu/Boot/Updates.antt =====
-- Booting sends nothing but `BootStart` and `BootEnd`.
use vmtest.Base.{ℕ, zero, suc, Bool, true, false, Text, Result, ok, err, if◌then◌else◌}
use vmtest.Output.{Output}
use vmtest.Host.{Host, World, Act, pure, panics}
use vmtest.Host.Sends.{SendsOnly, sends_rules, SendsOnly-pure, SendsOnly-throw, Sent, Sent-refl}
use vmtest.Qga.Connect
use vmtest.Qga.Connect.{sync_agent, connect_round, connect_loop, lift}
use vmtest.Qemu.Instance.{Qemu}
use vmtest.Qemu.Boot.{
  take_stderr, extract_child_stderr, connect_retry, connect_to_uds, check_child, sockets_ready,
  wait_loop, wait_for_qemu, child_cleanup, or_with_stderr, stream_child_output,
}

module _ {S : Type 0} {P : Output → Type 0} where
  lift-SendsOnly : {A : Type 0} (r : Result A) → SendsOnly P (lift {S = S} r)
  lift-SendsOnly (ok a) = SendsOnly-pure a
  lift-SendsOnly (err e) = SendsOnly-throw e

  pub stream_child_output-SendsOnly : (q : Qemu) → SendsOnly P (stream_child_output {S = S} q)
  unfolding stream_child_output
  stream_child_output-SendsOnly q = search sends_rules

module _ (H : Host) {P : Output → Type 0} where
  sync_agent-SendsOnly : SendsOnly P (sync_agent H)
  unfolding sync_agent
  sync_agent-SendsOnly = search (sends_rules, lift-SendsOnly) depth 9

  connect_round-SendsOnly : (sock : Text) → SendsOnly P (connect_round H sock)
  unfolding connect_round
  connect_round-SendsOnly sock = search (sends_rules, sync_agent-SendsOnly) depth 9

  connect_step :
      (fuel end_time : ℕ) (sock : Text)
      → SendsOnly P (connect_loop H fuel end_time sock)
      → SendsOnly P (connect_loop H (suc fuel) end_time sock)
  unfolding connect_loop
  connect_step fuel end_time sock again = search (sends_rules, connect_round-SendsOnly) depth 8

  connect_loop-SendsOnly :
      (fuel end_time : ℕ) (sock : Text) → SendsOnly P (connect_loop H fuel end_time sock)
  connect_loop-SendsOnly zero end_time sock = unfold connect_loop in search sends_rules
  connect_loop-SendsOnly (suc fuel) end_time sock =
      connect_step fuel end_time sock (connect_loop-SendsOnly fuel end_time sock)

  pub new-SendsOnly :
      (fuel : ℕ) (sock : Text) (has_kvm : Bool) → SendsOnly P (Connect.new H fuel sock has_kvm)
  unfolding Connect.new
  new-SendsOnly fuel sock has_kvm = search (sends_rules, connect_loop-SendsOnly)

  connect_retry_step :
      (fuel start : ℕ) (path : Text)
      → SendsOnly P (connect_retry H fuel start path)
      → SendsOnly P (connect_retry H (suc fuel) start path)
  unfolding connect_retry
  connect_retry_step fuel start path again = search sends_rules depth 9

  connect_retry-SendsOnly :
      (fuel start : ℕ) (path : Text) → SendsOnly P (connect_retry H fuel start path)
  connect_retry-SendsOnly zero start path = unfold connect_retry in search sends_rules
  connect_retry-SendsOnly (suc fuel) start path =
      connect_retry_step fuel start path (connect_retry-SendsOnly fuel start path)

  pub connect_to_uds-SendsOnly : (fuel : ℕ) (path : Text) → SendsOnly P (connect_to_uds H fuel path)
  unfolding connect_to_uds
  connect_to_uds-SendsOnly fuel path = search (sends_rules, connect_retry-SendsOnly)

module _ {S : Type 0} {P : Output → Type 0} where
  take_stderr-SendsOnly : SendsOnly P (take_stderr {S = S})
  unfolding take_stderr pure panics
  take_stderr-SendsOnly = record { at = λ w. taken w w.has_stderr }
    where
      taken :
          (w : World S) (b : Bool)
          → Sent P w.sent
              ((if b then pure tt (record w { has_stderr = false }) else panics w).1.sent)
      taken w true = Sent-refl P w.sent
      taken w false = Sent-refl P w.sent

module _ (H : Host) {P : Output → Type 0} where
  extract-SendsOnly : SendsOnly P (extract_child_stderr H)
  unfolding extract_child_stderr
  extract-SendsOnly = search (sends_rules, take_stderr-SendsOnly)

  check_child-SendsOnly : SendsOnly P (check_child H)
  unfolding check_child
  check_child-SendsOnly = search (sends_rules, extract-SendsOnly) depth 8

  sockets_ready-SendsOnly :
      (qga_sock qmp_sock : Text) → SendsOnly P (sockets_ready H qga_sock qmp_sock)
  unfolding sockets_ready
  sockets_ready-SendsOnly qga_sock qmp_sock = search sends_rules depth 8

  wait_step :
      (fuel start : ℕ) (qga_sock qmp_sock : Text)
      → SendsOnly P (wait_loop H fuel start qga_sock qmp_sock)
      → SendsOnly P (wait_loop H (suc fuel) start qga_sock qmp_sock)
  unfolding wait_loop
  wait_step fuel start qga_sock qmp_sock again =
      search (sends_rules, check_child-SendsOnly, sockets_ready-SendsOnly) depth 9

  wait_loop-SendsOnly :
      (fuel start : ℕ) (qga_sock qmp_sock : Text)
      → SendsOnly P (wait_loop H fuel start qga_sock qmp_sock)
  wait_loop-SendsOnly zero start qga_sock qmp_sock = unfold wait_loop in search sends_rules
  wait_loop-SendsOnly (suc fuel) start qga_sock qmp_sock =
      wait_step fuel start qga_sock qmp_sock (wait_loop-SendsOnly fuel start qga_sock qmp_sock)

  pub wait_for_qemu-SendsOnly :
      (fuel : ℕ) (qga_sock qmp_sock : Text) → SendsOnly P (wait_for_qemu H fuel qga_sock qmp_sock)
  unfolding wait_for_qemu
  wait_for_qemu-SendsOnly fuel qga_sock qmp_sock = search (sends_rules, wait_loop-SendsOnly)

  pub child_cleanup-SendsOnly : SendsOnly P (child_cleanup H)
  unfolding child_cleanup
  child_cleanup-SendsOnly = search sends_rules depth 9

  pub or_with_stderr-SendsOnly :
      {A : Type 0} (what : Text) (m : Act H.State A)
      → SendsOnly P m
      → SendsOnly P (or_with_stderr H what m)
  unfolding or_with_stderr
  or_with_stderr-SendsOnly what m h = search (sends_rules, extract-SendsOnly) depth 8
