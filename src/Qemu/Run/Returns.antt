-- ===== src/Qemu/Run/Returns.antt =====
-- The run of a target returns, if the processes in its guest end.
use vmtest.Base.{
  ℕ, zero, suc, ◌+◌, ◌*◌, ◌≤◌, List, [], ◌∷◌, Option, none, some, Bool, false, Text, text, ◌==◌,
  arith,
}
use vmtest.Base.Integers.{ℤ, pos, ℤ_eq}
use vmtest.Config.{Mount}
use vmtest.Output.{Output, setup}
use vmtest.Host.{Host, Act, pure}
use vmtest.Host.Returns.{
  Clock, Returns, Returns-pure, Returns-sleep, Returns-bind, Returns-branch, returns_rules,
}
use vmtest.Qga.Version.{Version}
use vmtest.Qemu.Args.{Machine}
use vmtest.Qemu.Instance.{Qemu, CommandContext}
use vmtest.Qemu.Boot.Wait.{connect_to_uds-Returns}
use vmtest.Qemu.Boot.Termination.{child_cleanup-Returns, boot_vm-Returns}
use vmtest.Qemu.Run.{
  expect, drop_init, shut_down, run_target, run_ready, run_booted, drop_qemu, run_body, run,
}
use vmtest.Guest.Returns.{Processes, run_in_vm-Returns}
use vmtest.Guest.Mount.{
  require_zero, run_setup, mount_loop, mount_in_guest, mount_all, setup_vm, sync,
}
use vmtest.Guest.Command.{run_connected, run_command}

module _ {H : Host} {L : Clock H} (b : ℕ) where
  require_zero-Returns : (message : Text) (rc : ℤ) → Returns L b (require_zero message rc)
  unfolding require_zero
  require_zero-Returns message rc = search returns_rules

  pub drop_init-Returns : Returns L b drop_init
  unfolding drop_init pure
  drop_init-Returns = record { at = λ w h. (λ e. cc, h) }

  expect-Returns : {A : Type 0} (m : Act H.State A) → Returns L b m → Returns L b (expect m)
  unfolding expect
  expect-Returns m r = search returns_rules

-- The fuel is enough for the processes in the guest, and for the boot.
module _ {H : Host} {L : Clock H} (G : Processes L) (fuel : ℕ) (lasts : G.span ≤ fuel * 200)
    (boots : 120 ≤ fuel) where
  module _ (version : Version) where
    run_setup-Returns :
        (b : ℕ) (cmd : Text) (args : List Text)
        → Returns L b (run_setup H (suc fuel) version cmd args)
    unfolding run_setup
    run_setup-Returns b cmd args =
        run_in_vm-Returns G fuel b version (some setup) cmd args false lasts

    mount_step :
        (left i b : ℕ) (args : List Text) (rc : ℤ)
        → ((b' : ℕ) (rc' : ℤ)
            → Returns L b' (mount_loop H (suc fuel) version left (i + 1) args rc'))
        → Returns L b (mount_loop H (suc fuel) version (suc left) i args rc)
    unfolding mount_loop
    mount_step left i b args rc again =
        Returns-bind L b _ _ (run_setup-Returns b (text "mount") args) (λ rc'.
          Returns-branch L b (rc' == pos 32) _ _
            (λ _. Returns-sleep L b (i * 1000) _ (again (b + i * 1000) rc'))
            (λ _. Returns-pure L b rc'))

    mount_loop-Returns :
        (left i b : ℕ) (args : List Text) (rc : ℤ)
        → Returns L b (mount_loop H (suc fuel) version left i args rc)
    mount_loop-Returns zero i b args rc = unfold mount_loop in Returns-pure L b rc
    mount_loop-Returns (suc left) i b args rc =
        mount_step left i b args rc (λ b' rc'. mount_loop-Returns left (i + 1) b' args rc')

    mount_in_guest-Returns :
        (b : ℕ) (guest_path mount_tag : Text) (ro : Bool)
        → Returns L b (mount_in_guest H (suc fuel) version guest_path mount_tag ro)
    unfolding mount_in_guest
    mount_in_guest-Returns b guest_path mount_tag ro =
        search (returns_rules, run_setup-Returns, mount_loop-Returns, require_zero-Returns) depth 8

    mount_all_step :
        (b : ℕ) (m : Machine) (guest_path : Text) (mount : Mount) (rest : List (Text × Mount))
        → Returns L b (mount_all H (suc fuel) version m rest)
        → Returns L b (mount_all H (suc fuel) version m ((guest_path, mount) ∷ rest))
    unfolding mount_all
    mount_all_step b m guest_path mount rest others = search (returns_rules, mount_in_guest-Returns)

    mount_all-Returns :
        (b : ℕ) (m : Machine) (mounts : List (Text × Mount))
        → Returns L b (mount_all H (suc fuel) version m mounts)
    mount_all-Returns b m [] = unfold mount_all in search returns_rules
    mount_all-Returns b m ((guest_path, mount) ∷ rest) =
        mount_all_step b m guest_path mount rest (mount_all-Returns b m rest)

    setup_vm-Returns :
        (b : ℕ) (m : Machine) (mounts : List (Text × Mount))
        → Returns L b (setup_vm H (suc fuel) version m mounts)
    unfolding setup_vm
    setup_vm-Returns b m mounts =
        search (returns_rules, mount_in_guest-Returns, mount_all-Returns) depth 8

    sync-Returns : (b : ℕ) → Returns L b (sync H (suc fuel) version)
    unfolding sync
    sync-Returns b =
        let ran = run_in_vm-Returns G fuel b version none (text "sync") [] false lasts in
        search (returns_rules, require_zero-Returns)

    run_connected-Returns :
        (b : ℕ) (render : CommandContext → Text) (q : Qemu)
        → Returns L b (run_connected H (suc fuel) render version q)
    unfolding run_connected
    run_connected-Returns b render q =
        let connected = connect_to_uds-Returns L (suc fuel) b q.socks.command (omega arith) in
        let ran = λ (output : Option (Text → Output)) (cmd : Text) (args : List Text) (env : Bool).
          run_in_vm-Returns G fuel b version output cmd args env lasts in
        search (returns_rules, L.set_read_timeout) depth 8

    run_command-Returns :
        (b : ℕ) (render : CommandContext → Text) (q : Qemu)
        → Returns L b (run_command H (suc fuel) render version q)
    unfolding run_command
    run_command-Returns b render q =
        search (returns_rules, run_connected-Returns, L.read_timeout, L.set_read_timeout) depth 8

  module _ (m : Machine) (render : CommandContext → Text) (q : Qemu) where
    shut_down-Returns : (b : ℕ) → Returns L b (shut_down H (suc fuel) m render q)
    unfolding shut_down
    shut_down-Returns b = search (returns_rules, L.quits, L.quit, L.exits, L.wait) depth 8

    run_target-Returns :
        (b : ℕ) (version : Version) → Returns L b (run_target H (suc fuel) m render q version)
    unfolding run_target
    run_target-Returns b version =
        search (returns_rules, run_command-Returns, sync-Returns, shut_down-Returns) depth 12

    run_ready-Returns :
        (b : ℕ) (version : Version) → Returns L b (run_ready H (suc fuel) m render q version)
    unfolding run_ready
    run_ready-Returns b version =
        search
          (returns_rules, drop_init-Returns, expect-Returns, run_target-Returns, L.exits, L.wait)
          depth 8

    run_booted-Returns :
        (b : ℕ) (version : Version) → Returns L b (run_booted H (suc fuel) m render q version)
    unfolding run_booted
    run_booted-Returns b version =
        search (returns_rules, setup_vm-Returns, run_ready-Returns) depth 8

    drop_qemu-Returns : (b : ℕ) → Returns L b (drop_qemu H (suc fuel) m render q)
    unfolding drop_qemu
    drop_qemu-Returns b = search (returns_rules, drop_init-Returns, L.remove_file) depth 10

    pub run-Returns : (b : ℕ) → Returns L b (run H (suc fuel) m render q)
    unfolding run run_body
    run-Returns b =
        let booted = boot_vm-Returns L (suc fuel) b m q (omega (arith, boots)) in
        search (returns_rules, run_booted-Returns, child_cleanup-Returns, drop_qemu-Returns) depth
          10
