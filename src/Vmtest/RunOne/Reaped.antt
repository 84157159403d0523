-- ===== src/Vmtest/RunOne/Reaped.antt =====
-- A target leaves no QEMU behind: `run_one` of src/vmtest.rs.
use vmtest.Base.{ℕ, List, Option, none, some, false, Text, Result, ok, err, ◌≡◌, ◌≢◌, refl}
use mathlib.Core.Path.{subst}
use vmtest.Config.{Target}
use vmtest.Output.{boot_end}
use vmtest.Host.{
  Host, World, Act, Outcome, Spawned, spawned, not_found, spawn_failed, done, fail, panic,
  unfinished, caught, continue, ◌>>=◌, pure, send, attempt, match_result,
}
use vmtest.Host.Keeps.{
  KeepsHost, KeepsHost-pure, KeepsHost-throw, KeepsHost-panics, KeepsHost-bind, KeepsHost-context,
  keeps_rules,
}
use vmtest.Qga.Connect.{lift}
use vmtest.Qemu.Args.{Machine}
use vmtest.Qemu.Instance.{Qemu, CommandContext, interactive}
use vmtest.Qemu.Invocation.{Sockets, program}
use vmtest.Qemu.New
use vmtest.Qemu.New.{
  Formats, make, lift_panic, own_init, check_spawned, gen_sock, verify_qemu_exists, fill_init,
  gen_init, new_with_init,
}
use vmtest.Qemu.Run.{drop_init, run}
use vmtest.Qemu.Run.Child.{Child, remains}
use vmtest.Qemu.Run.Reaped.{Wired, run-gone}
use vmtest.Vmtest.Instance.{Vmtest, setup_target}
use vmtest.Vmtest.RunOne.{setup_qemu, run_one}
use vmtest.Vmtest.RunOne.Made.{setup_qemu-Made}

-- What is done before QEMU is spawned does not start it: the program that is spawned for its
-- `--help` is another process.
pub record Preparation {H : Host} (C : Child H) : Type 0 where
  pub gen_range :
      (low high : ℕ) (s : H.State)
      → remains C s ≡ false
      → remains C (H.gen_range low high s).1 ≡ false
  pub spawn_help :
      (program : Text) (s : H.State)
      → remains C s ≡ false
      → remains C (H.spawn_help program s).1 ≡ false
  pub tempfile_in :
      (dir : Text) (s : H.State) → remains C s ≡ false → remains C (H.tempfile_in dir s).1 ≡ false
  pub write_all :
      (path contents : Text) (s : H.State)
      → remains C s ≡ false
      → remains C (H.write_all path contents s).1 ≡ false
  pub get_mode :
      (path : Text) (s : H.State) → remains C s ≡ false → remains C (H.get_mode path s).1 ≡ false
  pub set_mode :
      (path : Text) (mode : ℕ) (s : H.State)
      → remains C s ≡ false
      → remains C (H.set_mode path mode s).1 ≡ false

make-Wired :
    (t : Target) (host_shared : Text) (socks : Sockets) (args : List Text)
    → Wired (make t host_shared socks args)
unfolding make interactive
make-Wired t host_shared socks args = refl

module _ {H : Host} {C : Child H} (P : Preparation C) (fmt : Formats) where
  abbrev Gone : H.State → Type 0
  Gone s = remains C s ≡ false

  lift-keeps : {A : Type 0} (r : Result A) → KeepsHost Gone (lift r)
  lift-keeps (ok a) = KeepsHost-pure a
  lift-keeps (err e) = KeepsHost-throw e

  lift_panic-keeps : {A : Type 0} (r : Option (Result A)) → KeepsHost Gone (lift_panic r)
  lift_panic-keeps none = KeepsHost-panics
  lift_panic-keeps (some r) = lift-keeps r

  own_init-keeps : KeepsHost Gone own_init
  unfolding own_init pure
  own_init-keeps = record { at = λ w h. h }

  drop_init-keeps : KeepsHost Gone drop_init
  unfolding drop_init pure
  drop_init-keeps = record { at = λ w h. h }

  check_spawned-keeps : (program : Text) (s : Spawned) → KeepsHost Gone (check_spawned program s)
  unfolding check_spawned
  check_spawned-keeps program spawned = KeepsHost-pure tt
  check_spawned-keeps program (not_found e) = KeepsHost-throw _
  check_spawned-keeps program (spawn_failed e) = KeepsHost-pure tt

  gen_sock-keeps : (prefix : Text) → KeepsHost Gone (gen_sock H prefix)
  unfolding gen_sock
  gen_sock-keeps prefix = search (keeps_rules, P.gen_range) depth 8

  verify-keeps : (program : Text) → KeepsHost Gone (verify_qemu_exists H program)
  unfolding verify_qemu_exists
  verify-keeps program = search (keeps_rules, P.spawn_help, check_spawned-keeps) depth 8

  fill_init-keeps : (path : Text) → KeepsHost Gone (fill_init H fmt path)
  unfolding fill_init
  fill_init-keeps path =
      search (keeps_rules, P.write_all, P.get_mode, P.set_mode, lift_panic-keeps) depth 10

  gen_init-keeps : (rootfs : Text) → KeepsHost Gone (gen_init H fmt rootfs)
  unfolding gen_init
  gen_init-keeps rootfs =
      search (keeps_rules, P.tempfile_in, own_init-keeps, fill_init-keeps, drop_init-keeps) depth 10

  new_with_init-keeps :
      (m : Machine) (t : Target) (host_shared : Text) (socks : Sockets) (guest_init : Text)
      → KeepsHost Gone (new_with_init H fmt m t host_shared socks guest_init)
  unfolding new_with_init
  new_with_init-keeps m t host_shared socks guest_init = search (keeps_rules, verify-keeps) depth 8

  new-keeps :
      (m : Machine) (t : Target) (host_shared : Text)
      → KeepsHost Gone (New.new H fmt m t host_shared)
  unfolding New.new
  new-keeps m t host_shared =
      search (keeps_rules, gen_sock-keeps, gen_init-keeps, new_with_init-keeps, drop_init-keeps)
        depth 10

module _ {H : Host} {C : Child H} (P : Preparation C) (fuel : ℕ) (m : Machine) (fmt : Formats)
    (render : CommandContext → Text) (v : Vmtest) where
  setup_qemu-keeps : (idx : ℕ) → KeepsHost (Gone P fmt) (setup_qemu H fuel m fmt render v idx)
  unfolding setup_qemu
  setup_qemu-keeps idx =
      KeepsHost-bind (lift (setup_target v idx)) _ (lift-keeps P fmt (setup_target v idx))
        (λ t. KeepsHost-context _ _ (new-keeps P fmt m t v.base))

  -- The instance that is set up is wired as `Qemu::new` does it.
  setup_qemu-Wired :
      (idx : ℕ) (w end : World H.State) (q : Qemu)
      → setup_qemu H fuel m fmt render v idx w ≡ (done q, end)
      → Wired q
  setup_qemu-Wired idx w end q e =
      let (t, target, (socks, guest_init, args, words, same)) =
        setup_qemu-Made H fuel m fmt render v idx w end q e in
      subst Wired same (make-Wired t v.base socks args)

  -- If no QEMU runs at the start, then none runs where `run_one` has returned or panicked, unless
  -- an inspection of it or a wait for it has failed: not where the instance cannot be set up or
  -- spawned, not where its boot fails, and not behind its command.
  pub run_one-gone :
      (idx : ℕ) (w : World H.State)
      → remains C w.host ≡ false
      → (run_one H fuel m fmt render v idx w).0 ≢ unfinished
      → remains C (run_one H fuel m fmt render v idx w).1.host ≡ false
  unfolding run_one attempt ◌>>=◌ match_result send
  run_one-gone idx w h n =
      built (setup_qemu H fuel m fmt render v idx w).0 (setup_qemu H fuel m fmt render v idx w).1
        refl ((setup_qemu-keeps idx).at w h) n
    where
      next : Result Qemu → Act H.State (Unit {0})
      next r = match_result r (λ q. run H fuel m render q) (λ e. send (boot_end (err e)))

      built :
          (r : Outcome Qemu) (w' : World H.State)
          → setup_qemu H fuel m fmt render v idx w ≡ (r, w')
          → remains C w'.host ≡ false
          → (continue (caught r) next w').0 ≢ unfinished
          → remains C (continue (caught r) next w').1.host ≡ false
      built (done q) w' e h n = run-gone C fuel m render q w' (setup_qemu-Wired idx w w' q e) h n
      built (fail x) w' e h n = h
      built panic w' e h n = h
      built unfinished w' e h n = absurd (n refl)
