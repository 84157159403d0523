-- ===== src/Qemu/New/Exports.antt =====
-- The command line of each instance that `Qemu::new` of src/qemu.rs makes exports what its guest
-- mounts.
use vmtest.Host.{Host}
use vmtest.Qemu.Args.{Machine}
use vmtest.Qemu.Invocation.Exports.{Exports}
use vmtest.Qemu.Instance.{Qemu}
use vmtest.Qemu.New

-- The instance exports what its guest mounts.
abbrev pub HasExports : Machine → Qemu → Type 0
HasExports m q = Exports m q.args q.host_shared q.mounts
