-- ===== src/Vmtest/Resolve.antt =====
-- How src/vmtest.rs makes the paths of a target relative to the base path.
pub mod Laws
use vmtest.Base.{Text, List, [], ◌∷◌, map, if◌then◌else◌}
use vmtest.Paths.{is_relative, push}
use vmtest.Config.{Mount, VmConfig, Target}
use mathlib.Core.Option

-- `Vmtest::resolve_path`, for the base path of the instance.
unfoldable pub resolve_path : Text → Text → Text
unfolding push
resolve_path base input = if is_relative input then push base input else input

unfoldable pub resolve_mount : Text → Text × Mount → Text × Mount
unfolding resolve_path
resolve_mount base (guest, m) = (guest, record m { host_path = resolve_path base m.host_path })

-- The assignments of `setup_qemu` to its copy of the target.
unfoldable pub resolve_target : Text → Target → Target
unfolding resolve_path resolve_mount
resolve_target base t = record t {
  image = Option.map (resolve_path base) t.image;
  kernel = Option.map (resolve_path base) t.kernel;
  rootfs = resolve_path base t.rootfs;
  vm = record (t.vm) {
    bios = Option.map (resolve_path base) t.vm.bios;
    mounts = map (resolve_mount base) t.vm.mounts;
  };
}
