-- ===== src/Vmtest/RunOne/Returns.antt =====
-- `run_one` returns, if the processes in the guest end.
use vmtest.Base.{ℕ, suc, ◌*◌, ◌≤◌, Option, none, some, Text, Result, ok, err, ◌≢◌, arith}
use vmtest.Config.{Target}
use vmtest.Host.{Host, World, unfinished, Spawned, spawned, not_found, spawn_failed, pure}
use vmtest.Host.Returns.{
  Clock, Returns, Returns-pure, Returns-throw, Returns-panics, Returns-bind, Returns-ask,
  returns_rules,
}
use vmtest.Qga.Connect.{lift}
use vmtest.Qemu.Args.{Machine}
use vmtest.Qemu.Invocation.{Sockets}
use vmtest.Qemu.Instance.{CommandContext}
use vmtest.Qemu.New
use vmtest.Qemu.New.{
  Formats, lift_panic, own_init, check_spawned, gen_sock, verify_qemu_exists, fill_init, gen_init,
  new_with_init,
}
use vmtest.Qemu.Run.Returns.{drop_init-Returns, run-Returns}
use vmtest.Guest.Returns.{Processes}
use vmtest.Vmtest.Instance.{Vmtest}
use vmtest.Vmtest.RunOne.{setup_qemu, run_one}

module _ {H : Host} (L : Clock H) (b : ℕ) where
  own_init-Returns : Returns L b own_init
  unfolding own_init pure
  own_init-Returns = record { at = λ w h. (λ e. cc, h) }

  check_spawned-Returns : (program : Text) (r : Spawned) → Returns L b (check_spawned program r)
  unfolding check_spawned
  check_spawned-Returns program spawned = search returns_rules
  check_spawned-Returns program (not_found e) = search returns_rules
  check_spawned-Returns program (spawn_failed e) = search returns_rules

  lift-Returns : {A : Type 0} (r : Result A) → Returns L b (lift r)
  lift-Returns (ok a) = Returns-pure L b a
  lift-Returns (err e) = Returns-throw L b e

  lift_panic-Returns : {A : Type 0} (o : Option (Result A)) → Returns L b (lift_panic o)
  lift_panic-Returns none = Returns-panics L b
  lift_panic-Returns (some r) = lift-Returns r

  gen_sock-Returns : (prefix : Text) → Returns L b (gen_sock H prefix)
  unfolding gen_sock
  gen_sock-Returns prefix =
      Returns-bind L b _ _
        (Returns-ask L b (H.gen_range 100_000 1_000_000) (L.gen_range 100_000 1_000_000))
        (λ id. Returns-pure L b _)

  verify-Returns : (program : Text) → Returns L b (verify_qemu_exists H program)
  unfolding verify_qemu_exists
  verify-Returns program =
      Returns-bind L b _ _ (Returns-ask L b (H.spawn_help program) (L.spawn_help program))
        (λ r. check_spawned-Returns program r)

  module _ (fmt : Formats) where
    fill_init-Returns : (path : Text) → Returns L b (fill_init H fmt path)
    unfolding fill_init
    fill_init-Returns path =
        search (returns_rules, lift_panic-Returns, L.write_all, L.get_mode, L.set_mode) depth 10

    gen_init-Returns : (rootfs : Text) → Returns L b (gen_init H fmt rootfs)
    unfolding gen_init
    gen_init-Returns rootfs =
        search
          (returns_rules, own_init-Returns, fill_init-Returns, drop_init-Returns, L.tempfile_in)
          depth 8

    new_with_init-Returns :
        (m : Machine) (t : Target) (host_shared : Text) (socks : Sockets) (guest_init : Text)
        → Returns L b (new_with_init H fmt m t host_shared socks guest_init)
    unfolding new_with_init
    new_with_init-Returns m t host_shared socks guest_init = search (returns_rules, verify-Returns)

    new-Returns :
        (m : Machine) (t : Target) (host_shared : Text)
        → Returns L b (New.new H fmt m t host_shared)
    unfolding New.new
    new-Returns m t host_shared =
        search
          (
            returns_rules, gen_sock-Returns, gen_init-Returns, new_with_init-Returns,
            drop_init-Returns,
          )
          depth 12

    setup_qemu-Returns :
        (fuel : ℕ) (m : Machine) (render : CommandContext → Text) (v : Vmtest) (idx : ℕ)
        → Returns L b (setup_qemu H fuel m fmt render v idx)
    unfolding setup_qemu
    setup_qemu-Returns fuel m render v idx =
        search (returns_rules, lift-Returns, new-Returns) depth 8

module _ {H : Host} {L : Clock H} (G : Processes L) (fuel : ℕ) (m : Machine) (fmt : Formats)
    (render : CommandContext → Text) (v : Vmtest) where
  pub run_one-Returns :
      (b idx : ℕ)
      → G.span ≤ fuel * 200
      → 120 ≤ fuel
      → Returns L b (run_one H (suc fuel) m fmt render v idx)
  unfolding run_one
  run_one-Returns b idx lasts boots =
      let ran = run-Returns G fuel lasts boots m render in
      search (returns_rules, setup_qemu-Returns) depth 8

  -- If the clock does not run backwards and a pause takes the time that was asked for, and each
  -- process in the guest has exited once `G.span` milliseconds have passed since its start, then
  -- `run_one` returns or panics: 120 rounds of fuel are enough for the loops of the boot, and
  -- `G.span` / 200 for those that wait for a process.
  pub run_one_returns :
      (idx : ℕ) (w : World H.State)
      → G.span ≤ fuel * 200
      → 120 ≤ fuel
      → (run_one H (suc fuel) m fmt render v idx w).0 ≢ unfinished
  run_one_returns idx w lasts boots = ((run_one-Returns 0 idx lasts boots).at w (omega arith)).0
