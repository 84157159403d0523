-- ===== src/Qemu/Boot.antt =====
-- Starting QEMU and connecting to it: `connect_to_uds`, `wait_for_qemu`, `child_cleanup`,
-- `extract_child_stderr` and `boot_vm` of src/qemu.rs.
pub mod Wait
pub mod Sockets
pub mod Appears
pub mod Termination
pub mod Updates
use vmtest.Base.{
  ℕ, zero, suc, ◌+◌, ◌-◌, List, [], ◌∷◌, ◌++◌, Option, none, some, Bool, true, false, ◌&&◌, not,
  Text, text, Error, Result, ok, err, ltb, if◌then◌else◌,
}
use vmtest.Output.{Output, boot_start, boot_end}
use vmtest.Host.{
  blocking, on_exit, on_stderr, on_handshake, branch, Host, World, Act, ◌>>=◌, ◌>>◌, pure, throw,
  panics, out_of_fuel, send, call, pipe_stderr, ask, attempt, context, on_failure, ignore_error,
  match_result, match_option,
}
use vmtest.Qga.Version.{Version}
use vmtest.Qga.Connect
use vmtest.Qemu.Args.{Machine, host_supports_kvm}
use vmtest.Qemu.Instance.{Qemu, interactive}

-- What could be read of stderr, with the failure of the reading if there was one.
abbrev pub stderr_text : Text × Option Text → Text
stderr_text (read, none) = read
stderr_text (read, some e) = read ++ text "<failed to read child stderr: " ++ e ++ text ">"

module _ {S : Type 0} where
  -- `child.stderr.take().unwrap()`
  unfoldable pub take_stderr : Act S (Unit {0})
  take_stderr w = if w.has_stderr then pure tt (record w { has_stderr = false }) else panics w

  -- `child.stdout.take().unwrap()`: the streaming thread is modelled in Guest/Streams.
  unfoldable pub stream_child_output : Qemu → Act S (Unit {0})
  stream_child_output q = branch q.stdout_piped (pure tt) panics

module _ (H : Host) where
  -- The loop of `connect_to_uds`, from the time `start` on, and the last attempt behind it.
  unfoldable pub connect_retry : ℕ → ℕ → Text → Act H.State (Unit {0})
  connect_retry zero start path = out_of_fuel
  connect_retry (suc fuel) start path = do
    time ← ask H.now
    let again = connect_retry fuel start path
    branch (ltb (time - start) 5000)
        (do
          stream ← attempt (call (H.connect path))
          match_result stream pure (λ e. do ask (λ s. (tt, H.sleep 50 s)); again))
        (call (H.connect path))

  unfoldable pub connect_to_uds : ℕ → Text → Act H.State (Unit {0})
  unfolding connect_retry
  connect_to_uds fuel path = do start ← ask H.now; connect_retry fuel start path

  unfoldable pub extract_child_stderr : Act H.State Text
  unfolding take_stderr
  extract_child_stderr = do
    take_stderr
    contents ← blocking (H.hangs on_stderr) (ask H.read_stderr)
    pure (stderr_text contents)

  -- The first half of a round: whether the child still runs.
  unfoldable pub check_child : Act H.State (Unit {0})
  unfolding extract_child_stderr
  check_child = do
    status ← context (text "Failed to inspect QEMU status") (call H.try_wait)
    match_option status (pure tt) (λ success.
        branch success (throw (text "QEMU exits normally which is not expected" ∷ []))
          (do stderr ← extract_child_stderr; throw ((text "QEMU fails to start: " ++ stderr) ∷ [])))

  -- The second half: whether both sockets are there.
  unfoldable pub sockets_ready : Text → Text → Act H.State Bool
  sockets_ready qga_sock qmp_sock = do
    qga_ok ← context (text "Cannot stat " ++ qga_sock) (call (H.try_exists qga_sock))
    qmp_ok ← context (text "Cannot stat " ++ qmp_sock) (call (H.try_exists qmp_sock))
    pure (qga_ok && qmp_ok)

  unfoldable pub wait_loop : ℕ → ℕ → Text → Text → Act H.State (Unit {0})
  unfolding check_child sockets_ready
  wait_loop zero start qga_sock qmp_sock = out_of_fuel
  wait_loop (suc fuel) start qga_sock qmp_sock = do
    time ← ask H.now
    let again = wait_loop fuel start qga_sock qmp_sock
    branch (ltb (time - start) 5000)
        (do
          check_child
          ready ← sockets_ready qga_sock qmp_sock
          branch ready (pure tt) (do ask (λ s. (tt, H.sleep 50 s)); again))
        (throw (text "QEMU sockets did not appear in time" ∷ []))

  unfoldable pub wait_for_qemu : ℕ → Text → Text → Act H.State (Unit {0})
  unfolding wait_loop
  wait_for_qemu fuel qga_sock qmp_sock = do
    start ← ask H.now
    wait_loop fuel start qga_sock qmp_sock

  -- The logging of the child's remaining output is left out.
  unfoldable pub child_cleanup : Act H.State (Unit {0})
  child_cleanup = do
    status ← attempt (call H.try_wait)
    match_result status
        (λ exited.
          match_option exited
            (do ignore_error (call H.kill); ignore_error (blocking (H.hangs on_exit) (call H.wait)))
            (λ _. pure tt))
        (λ e. pure tt)

  -- `Err(e).context(what).context(stderr)` behind a failed step
  unfoldable pub or_with_stderr : {A : Type 0} → Text → Act H.State A → Act H.State A
  unfolding extract_child_stderr
  or_with_stderr what m = do
    result ← attempt m
    match_result result pure (λ e. do stderr ← extract_child_stderr; throw (stderr ∷ what ∷ e))

  -- What follows the guard on the child.
  unfoldable pub connect_vm : ℕ → Machine → Qemu → Act H.State Version
  unfolding wait_for_qemu connect_to_uds or_with_stderr Connect.new host_supports_kvm
  connect_vm fuel m q = do
    context (text "Failed waiting for QEMU to be ready")
        (wait_for_qemu fuel q.socks.qga q.socks.qmp)
    or_with_stderr (text "Failed to connect QMP") (connect_to_uds fuel q.socks.qmp)
    context (text "Failed to clone QMP Unix Stream") (call H.try_clone)
    or_with_stderr (text "QMP handshake failed")
        (blocking (H.hangs on_handshake) (call H.handshake))
    version ←
        context (text "Failed to connect QGA")
          (Connect.new H fuel q.socks.qga (host_supports_kvm m q.arch))
    send (boot_end (ok tt))
    pure version

  unfoldable pub boot_vm : ℕ → Machine → Qemu → Act H.State Version
  unfolding stream_child_output connect_vm child_cleanup interactive
  boot_vm fuel m q = do
    send boot_start
    context (text "Failed to spawn QEMU") (call (H.spawn q.program q.args))
    pipe_stderr
    branch (interactive q) (pure tt) (stream_child_output q)
    on_failure (connect_vm fuel m q) child_cleanup
