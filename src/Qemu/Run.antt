-- ===== src/Qemu/Run.antt =====
-- `Qemu::run` and the destructor of `Qemu` of src/qemu.rs.
pub mod Protocol
pub mod Returns
pub mod Child
pub mod Reaped
pub mod Truthful
use vmtest.Base.{
  ℕ, List, [], ◌∷◌, Option, none, some, Bool, true, false, Text, text, Result, ok, err,
  if◌then◌else◌,
}
use vmtest.Base.Integers.{ℤ}
use vmtest.Output.{Output, boot_end, setup_end, command_start, command_end}
use vmtest.Host.{
  branch, Host, World, Act, Outcome, done, fail, panic, unfinished, ◌>>=◌, ◌>>◌, pure, panics, send,
  call, blocking, on_exit, on_quit, attempt, context, finally, ignore_error, match_result,
}
use vmtest.Qga.Version.{Version}
use vmtest.Qemu.Args.{Machine}
use vmtest.Qemu.Instance.{Qemu, CommandContext, interactive}
use vmtest.Qemu.Boot.{child_cleanup, boot_vm}
use vmtest.Guest.Mount.{setup_vm, sync}
use vmtest.Guest.Command.{run_command}

-- `m.expect(..)`
unfoldable pub expect : {S A : Type 0} → Act S A → Act S A
expect m = do result ← attempt m; match_result result pure (λ e. panics)

-- `drop(self.init.take())`
unfoldable pub drop_init : {S : Type 0} → Act S (Unit {0})
drop_init w = pure tt (record w { has_init = false })

module _ (H : Host) (fuel : ℕ) (m : Machine) (render : CommandContext → Text) (q : Qemu) where
  -- The end of a run: QEMU is asked to quit, and waited for if it agrees.
  unfoldable pub shut_down : Act H.State (Unit {0})
  shut_down = do
    quitted ← attempt (blocking (H.hangs on_quit) (call H.quit))
    match_result quitted (λ _. ignore_error (blocking (H.hangs on_exit) (call H.wait)))
        (λ e. pure tt)

  -- From `CommandStart` on.
  unfoldable pub run_target : Version → Act H.State (Unit {0})
  unfolding run_command sync shut_down
  run_target version = do
    send command_start
    result ← attempt (context (text "Failed to run command") (run_command H fuel render version q))
    send (command_end result)
    ignore_error (sync H fuel version)
    shut_down

  -- What follows a successful setup.
  unfoldable pub run_ready : Version → Act H.State (Unit {0})
  unfolding drop_init expect interactive run_target
  run_ready version = do
    drop_init
    branch (interactive q) (expect (blocking (H.hangs on_exit) (call H.wait))) (run_target version)

  -- What follows a successful boot.
  unfoldable pub run_booted : Version → Act H.State (Unit {0})
  unfolding setup_vm run_ready
  run_booted version = do
    result ← attempt (setup_vm H fuel version m q.mounts)
    match_result result (λ _. run_ready version) (λ e. send (setup_end (err e)))

  -- `Drop::drop`, and the destructor of the init script behind it.
  unfoldable pub drop_qemu : Act H.State (Unit {0})
  unfolding drop_init
  drop_qemu = do
    ignore_error (call (H.remove_file q.socks.qga))
    ignore_error (call (H.remove_file q.socks.qmp))
    ignore_error (call (H.remove_file q.socks.command))
    drop_init

  unfoldable pub run_body : Act H.State (Unit {0})
  unfolding boot_vm run_booted child_cleanup
  run_body = do
    result ← attempt (boot_vm H fuel m q)
    match_result result (λ version. finally (run_booted version) (child_cleanup H))
        (λ e. send (boot_end (err e)))

  unfoldable pub run : Act H.State (Unit {0})
  unfolding run_body drop_qemu
  run = finally run_body drop_qemu
