-- ===== src/Guest/Mount.antt =====
-- `mount_in_guest`, `sync` and `setup_vm` of src/qemu.rs.
pub mod Retry
pub mod Success
pub mod Setup
use vmtest.Base.{
  ℕ, zero, suc, ◌+◌, ◌*◌, List, [], ◌∷◌, ◌++◌, none, some, Bool, show, false, not, Text, text, ok,
  ◌==◌, if◌then◌else◌,
}
use vmtest.Base.Integers.{ℤ, pos, ℤ_eq}
use vmtest.Config.{Mount}
use vmtest.Output.{setup, setup_start, setup_end}
use vmtest.Host.{branch, Host, Act, ◌>>=◌, ◌>>◌, pure, throw, ask, send, context}
use vmtest.Qga.Version.{Version}
use vmtest.Guest.{run_in_vm}
use vmtest.Qemu.Args.{Machine, mount_opts_9p_fs, shared_9p_fs_mount_path, shared_9p_fs_mount_tag}
use vmtest.Ui.Target.{show_int}

unfoldable pub mount_opts : Bool → Text
mount_opts ro = if ro then mount_opts_9p_fs ++ text ",ro" else mount_opts_9p_fs

-- `format!("mount{}", hash(..))` in `setup_vm`
unfoldable pub guest_mount_name : Machine → Mount → Text
unfolding show
guest_mount_name m mount = text "mount" ++ show (m.hash mount.host_path)

-- `bail!` with an exit code, unless it is 0
unfoldable pub require_zero : {S : Type 0} → Text → ℤ → Act S (Unit {0})
unfolding show_int
require_zero message rc =
    branch (rc == pos 0) (pure tt) (throw ((message ++ text ": exit code " ++ show_int rc) ∷ []))

module _ (H : Host) (fuel : ℕ) (version : Version) where
  unfoldable pub run_setup : Text → List Text → Act H.State ℤ
  unfolding run_in_vm
  run_setup cmd args = run_in_vm H fuel version (some setup) cmd args false

  -- The loop `for i in 0..5`, with the rounds that are left and `i`. 32 is mount(1)'s failure.
  unfoldable pub mount_loop : ℕ → ℕ → List Text → ℤ → Act H.State ℤ
  unfolding run_setup
  mount_loop zero i args rc = pure rc
  mount_loop (suc left) i args rc = do
    rc' ← run_setup (text "mount") args
    let again = mount_loop left (i + 1) args rc'
    branch (rc' == pos 32) (do ask (λ s. (tt, H.sleep (i * 1000) s)); again) (pure rc')

  unfoldable pub mount_in_guest : Text → Text → Bool → Act H.State (Unit {0})
  unfolding run_setup mount_loop mount_opts require_zero
  mount_in_guest guest_path mount_tag ro = do
    rc ← run_setup (text "mkdir") (text "-p" ∷ guest_path ∷ [])
    require_zero (text "Failed to mkdir " ++ guest_path) rc
    rc' ←
        mount_loop 5 0
          (text "-t" ∷ text "9p" ∷ text "-o" ∷ mount_opts ro ∷ mount_tag ∷ guest_path ∷ []) (pos 0)
    require_zero (text "Failed to mount " ++ guest_path) rc'

  -- The loop of `setup_vm` over the additional mounts.
  unfoldable pub mount_all : Machine → List (Text × Mount) → Act H.State (Unit {0})
  unfolding mount_in_guest guest_mount_name
  mount_all m [] = pure tt
  mount_all m ((guest_path, mount) ∷ rest) = do
    context (text "Failed to mount " ++ guest_path ++ text " in guest")
        (mount_in_guest guest_path (guest_mount_name m mount) (not mount.writable))
    mount_all m rest

  unfoldable pub setup_vm : Machine → List (Text × Mount) → Act H.State (Unit {0})
  unfolding mount_in_guest mount_all
  setup_vm m mounts = do
    send setup_start
    context (text "Failed to mount shared directory in guest")
        (mount_in_guest shared_9p_fs_mount_path shared_9p_fs_mount_tag false)
    mount_all m mounts
    send (setup_end (ok tt))

  -- `Qemu::sync`; its output is dropped.
  unfoldable pub sync : Act H.State (Unit {0})
  unfolding run_in_vm require_zero
  sync = do
    rc ← run_in_vm H fuel version none (text "sync") [] false
    require_zero (text "Failed to sync guest filesystems") rc
