-- ===== src/Qemu/New/Updates.antt =====
-- Setting up an instance sends no update.
use vmtest.Base.{Option, none, some, Text, Result, ok, err}
use vmtest.Config.{Target}
use vmtest.Output.{Output}
use vmtest.Host.{Host, Spawned, spawned, not_found, spawn_failed, pure}
use vmtest.Host.Sends.{
  Sent-refl, SendsOnly, SendsOnly-pure, SendsOnly-throw, SendsOnly-panics, sends_rules,
}
use vmtest.Qemu.Args.{Machine}
use vmtest.Qemu.Invocation.{Sockets}
use vmtest.Qemu.New
use vmtest.Qemu.New.{
  make, Formats, lift_panic, own_init, check_spawned, gen_sock, verify_qemu_exists, fill_init,
  gen_init, new_with_init,
}
use vmtest.Qemu.Run.Protocol.{drop_init-SendsOnly}

module _ {S : Type 0} {P : Output → Type 0} where
  own_init-SendsOnly : SendsOnly P (own_init {S = S})
  unfolding own_init pure
  own_init-SendsOnly = record { at = λ w. Sent-refl P w.sent }

  check_spawned-SendsOnly :
      (program : Text) (r : Spawned) → SendsOnly P (check_spawned {S = S} program r)
  unfolding check_spawned
  check_spawned-SendsOnly program spawned = search sends_rules
  check_spawned-SendsOnly program (not_found e) = search sends_rules
  check_spawned-SendsOnly program (spawn_failed e) = search sends_rules

  lift_panic-SendsOnly : {A : Type 0} (o : Option (Result A)) → SendsOnly P (lift_panic {S = S} o)
  lift_panic-SendsOnly none = SendsOnly-panics
  lift_panic-SendsOnly (some (ok a)) = SendsOnly-pure a
  lift_panic-SendsOnly (some (err e)) = SendsOnly-throw e

module _ (H : Host) (fmt : Formats) where
  pub gen_sock-SendsOnly : {P : Output → Type 0} (prefix : Text) → SendsOnly P (gen_sock H prefix)
  unfolding gen_sock
  gen_sock-SendsOnly prefix = search sends_rules

  pub verify-SendsOnly :
      {P : Output → Type 0} (program : Text) → SendsOnly P (verify_qemu_exists H program)
  unfolding verify_qemu_exists
  verify-SendsOnly program = search (sends_rules, check_spawned-SendsOnly)

  fill_init-SendsOnly : {P : Output → Type 0} (path : Text) → SendsOnly P (fill_init H fmt path)
  unfolding fill_init
  fill_init-SendsOnly path = search (sends_rules, lift_panic-SendsOnly) depth 9

  pub gen_init-SendsOnly :
      {P : Output → Type 0} (rootfs : Text) → SendsOnly P (gen_init H fmt rootfs)
  unfolding gen_init
  gen_init-SendsOnly rootfs =
      search (sends_rules, own_init-SendsOnly, fill_init-SendsOnly, drop_init-SendsOnly) depth 8

  new_with_init-SendsOnly :
      {P : Output → Type 0} (m : Machine) (t : Target) (host_shared : Text) (socks : Sockets)
      (guest_init : Text)
      → SendsOnly P (new_with_init H fmt m t host_shared socks guest_init)
  unfolding new_with_init
  new_with_init-SendsOnly m t host_shared socks guest_init = search (sends_rules, verify-SendsOnly)

  pub new-SendsOnly :
      {P : Output → Type 0} (m : Machine) (t : Target) (host_shared : Text)
      → SendsOnly P (New.new H fmt m t host_shared)
  unfolding New.new
  new-SendsOnly m t host_shared =
      search
        (
          sends_rules, gen_sock-SendsOnly, gen_init-SendsOnly, new_with_init-SendsOnly,
          drop_init-SendsOnly,
        )
        depth 12
