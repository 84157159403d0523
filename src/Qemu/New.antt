-- ===== src/Qemu/New.antt =====
-- `Qemu::new` of src/qemu.rs, and what it calls. What the template engine makes of the template
-- of the init script, and how `{:?}` shows a path, are parameters.
pub mod Updates
pub mod Ownership
pub mod Made
pub mod Exports
use Prim.Native.Nat.{bit_or}
use vmtest.Base.{
  ℕ, List, [], ◌∷◌, ◌++◌, Option, none, some, Bool, true, false, not, Text, text, text_eq, ◌==◌,
  ◌&&◌, Error, Result, ok, err, get_or, show, is_some, if◌then◌else◌,
}
use vmtest.Config.{Target}
use vmtest.Paths.{Component}
use vmtest.Host.{
  Host, World, Act, Outcome, Spawned, spawned, not_found, spawn_failed, ◌>>=◌, ◌>>◌, pure, throw,
  panics, call, ask, context, on_failure, match_option, branch,
}
use vmtest.Qga.Connect.{lift}
use vmtest.Qemu.Args.{Machine}
use vmtest.Qemu.Invocation.{Sockets, program, qemu_args}
use vmtest.Qemu.Init.{guest_init_path}
use vmtest.Qemu.Instance.{Qemu, interactive, magic_interactive_command}
use vmtest.Qemu.Run.{drop_init}

pub record Formats : Type 0 where
  -- the template of the init script, rendered with the value of `PATH`
  pub render_init : Text → Text
  pub show_path : Text → Text
  pub show_parent : List Component → Text

-- A pure result that may be a panic.
abbrev pub lift_panic : {S A : Type 0} → Option (Result A) → Act S A
lift_panic none = panics
lift_panic (some r) = lift r

-- From here on the temporary file is owned, and removed when its owner goes.
unfoldable pub own_init : {S : Type 0} → Act S (Unit {0})
unfolding pure
own_init w = pure tt (record w { has_init = true })

unfoldable pub check_spawned : {S : Type 0} → Text → Spawned → Act S (Unit {0})
check_spawned program spawned = pure tt
check_spawned program (not_found e) =
    throw (
      (text "Did not find QEMU binary " ++ program ++ text ". Make sure QEMU is installed")
      ∷ e
      ∷ [])
check_spawned program (spawn_failed e) = pure tt

-- The instance; stdout is a pipe unless it is interactive.
unfoldable pub make : Target → Text → Sockets → List Text → Qemu
make t host_shared socks args = record {
  program = program t;
  args = args;
  socks = socks;
  command = t.command;
  host_shared = host_shared;
  rootfs = t.rootfs;
  arch = t.arch;
  mounts = t.vm.mounts;
  image = is_some t.image;
  stdout_piped = not (t.command == magic_interactive_command && not (is_some t.image));
}

module _ (H : Host) where
  unfoldable pub gen_sock : Text → Act H.State Text
  unfolding show
  gen_sock prefix = do
    id ← ask (H.gen_range 100_000 1_000_000)
    pure (text "/tmp/" ++ prefix ++ text "-" ++ show id ++ text ".sock")

  unfoldable pub verify_qemu_exists : Text → Act H.State (Unit {0})
  unfolding check_spawned
  verify_qemu_exists program = do result ← ask (H.spawn_help program); check_spawned program result

module _ (H : Host) (fmt : Formats) where
  unfoldable pub init_script : Text
  init_script = fmt.render_init (get_or H.env_path (text "/bin:/sbin:/usr/bin:/usr/sbin"))

  -- What is done with the temporary file at the given path.
  unfoldable pub fill_init : Text → Act H.State Text
  unfolding init_script guest_init_path
  fill_init path = do
    context (text "Failed to write init to tmpfs") (call (H.write_all path init_script))
    mode ← context (text "Failed to get init tempfile metadata") (call (H.get_mode path))
    context (text "Failed to set executable bits on init tempfile")
        (call (H.set_mode path (bit_or mode 0o111)))
    lift_panic (guest_init_path fmt.show_path fmt.show_parent H.temp_dir path)

  -- The temporary file is removed if what follows its creation fails.
  unfoldable pub gen_init : Text → Act H.State Text
  unfolding fill_init own_init drop_init
  gen_init rootfs = do
    path ← context (text "Failed to create tempfile") (call (H.tempfile_in (rootfs ++ H.temp_dir)))
    own_init
    on_failure (fill_init path) drop_init

  -- What follows the generation of the init script.
  unfoldable pub new_with_init : Machine → Target → Text → Sockets → Text → Act H.State Qemu
  unfolding verify_qemu_exists program qemu_args make
  new_with_init m t host_shared socks guest_init = do
    verify_qemu_exists H (program t)
    match_option (qemu_args m socks guest_init host_shared t) panics
        (λ args. pure (make t host_shared socks args))

  unfoldable pub new : Machine → Target → Text → Act H.State Qemu
  unfolding gen_sock gen_init new_with_init drop_init
  new m t host_shared = do
    qga ← gen_sock H (text "qga")
    qmp ← gen_sock H (text "qmp")
    command ← gen_sock H (text "cmdout")
    guest_init ← context (text "Failed to generate init") (gen_init t.rootfs)
    on_failure
        (new_with_init m t host_shared (record { qga = qga; qmp = qmp; command = command })
          guest_init)
        drop_init
