-- ===== src/Qemu/Boot/Termination.antt =====
-- The boot as a whole ends.
use vmtest.Base.{ℕ, ◌<◌, Text, ◌≢◌, arith}
use vmtest.Host.{Host, World, Act, unfinished}
use vmtest.Host.Returns.{Clock, Returns, returns_rules}
use vmtest.Qga.Connect.Wait.{new-Returns}
use vmtest.Qemu.Args.{Machine, host_supports_kvm}
use vmtest.Qemu.Instance.{Qemu}
use vmtest.Qemu.Boot.{child_cleanup, or_with_stderr, connect_vm, stream_child_output, boot_vm}
use vmtest.Qemu.Boot.Wait.{
  extract_child_stderr-Returns, wait_for_qemu-Returns, connect_to_uds-Returns,
}

module _ {H : Host} (L : Clock H) where
  pub child_cleanup-Returns : (b : ℕ) → Returns L b (child_cleanup H)
  unfolding child_cleanup
  child_cleanup-Returns b = search (returns_rules, L.try_wait, L.kill, L.exits, L.wait) depth 8

  or_with_stderr-Returns :
      {A : Type 0} (b : ℕ) (what : Text) (m : Act H.State A)
      → Returns L b m
      → Returns L b (or_with_stderr H what m)
  unfolding or_with_stderr
  or_with_stderr-Returns b what m r = search (returns_rules, extract_child_stderr-Returns)

  stream_child_output-Returns : (b : ℕ) (q : Qemu) → Returns L b (stream_child_output q)
  unfolding stream_child_output
  stream_child_output-Returns b q = search returns_rules

  connect_vm-Returns :
      (fuel b : ℕ) (m : Machine) (q : Qemu) → 120 < fuel → Returns L b (connect_vm H fuel m q)
  unfolding connect_vm
  connect_vm-Returns fuel b m q lt =
      let waited = wait_for_qemu-Returns L fuel b q.socks.qga q.socks.qmp (omega arith) in
      let connected = connect_to_uds-Returns L fuel b q.socks.qmp (omega arith) in
      let agent = new-Returns L fuel b q.socks.qga (host_supports_kvm m q.arch) lt in
      search (returns_rules, or_with_stderr-Returns, L.try_clone, L.greets, L.handshake) depth 12

  pub boot_vm-Returns :
      (fuel b : ℕ) (m : Machine) (q : Qemu) → 120 < fuel → Returns L b (boot_vm H fuel m q)
  unfolding boot_vm
  boot_vm-Returns fuel b m q lt =
      let connected = connect_vm-Returns fuel b m q lt in
      search (returns_rules, stream_child_output-Returns, child_cleanup-Returns, L.spawn) depth 9

  -- If the clock does not run backwards, a pause takes the time that was asked for, QEMU exits
  -- where it is waited for, the reading of its stderr ends, QMP answers, and a read from the
  -- agent's stream ends where the stream has a timeout, then booting returns on any fuel above 120
  -- rounds, be it with an error or a panic.
  pub boot_vm_returns :
      (fuel : ℕ) (m : Machine) (q : Qemu) (w : World H.State)
      → 120 < fuel
      → (boot_vm H fuel m q w).0 ≢ unfinished
  boot_vm_returns fuel m q w lt = ((boot_vm-Returns fuel 0 m q lt).at w (omega arith)).0
