-- ===== src/Qemu/Args.antt =====
-- The functions of src/qemu.rs that build QEMU's arguments. The architecture that vmtest was
-- built for, the files that exist on the host and the hash of a path are parameters.
pub mod Kernel
pub mod Firmware
use vmtest.Base.{
  ℕ, List, [], ◌∷◌, ◌++◌, map, Option, none, some, Bool, true, false, ◌&&◌, ◌||◌, not, Text, text,
  text_eq, ◌==◌, is_empty, show, if◌then◌else◌,
}
use vmtest.Config.{Mount, VmConfig}

abbrev pub rootfs_9p_fs_mount_tag : Text
rootfs_9p_fs_mount_tag = text "/dev/root"

abbrev pub shared_9p_fs_mount_tag : Text
shared_9p_fs_mount_tag = text "vmtest-shared"

abbrev pub shared_9p_fs_mount_path : Text
shared_9p_fs_mount_path = text "/mnt/vmtest"

abbrev pub command_output_port_name : Text
command_output_port_name = text "org.qemu.virtio_serial.0"

abbrev pub mount_opts_9p_fs : Text
mount_opts_9p_fs = text "trans=virtio,cache=mmap,msize=1048576"

abbrev pub qemu_default_args : List Text
qemu_default_args = text "-nodefaults" ∷ text "-display" ∷ text "none" ∷ []

-- What the functions read of the machine that vmtest runs on.
pub record Machine : Type 0 where
  -- `std::env::consts::ARCH`
  pub host_arch : Text
  -- `Path::exists`
  pub exists : Text → Bool
  -- `DefaultHasher` on a path
  pub hash : Text → ℕ

unfoldable pub host_supports_kvm : Machine → Text → Bool
host_supports_kvm m arch = arch == m.host_arch && m.exists (text "/dev/kvm")

-- The arguments for a disk image. `file.display()` is the path itself, as it is UTF-8.
unfoldable pub drive_args : Machine → Text → ℕ → List Text
unfolding show
drive_args m file index =
    let disk_id = text "disk" ++ show (m.hash file) in
    text "-drive"
    ∷ (text "file="
        ++ file
        ++ text ",index="
        ++ show index
        ++ text ",media=disk,if=none,id="
        ++ disk_id)
    ∷ text "-device"
    ∷ (text "virtio-blk-pci,drive=" ++ disk_id ++ text ",bootindex=" ++ show index)
    ∷ []

unfoldable pub guest_agent_args : Text → List Text
guest_agent_args sock =
    text "-chardev"
    ∷ (text "socket,path=" ++ sock ++ text ",server=on,wait=off,id=qga0")
    ∷ text "-device"
    ∷ text "virtio-serial"
    ∷ text "-device"
    ∷ text "virtserialport,chardev=qga0,name=org.qemu.guest_agent.0"
    ∷ []

-- The CPU model for an emulated guest.
unfoldable pub emulated_cpu : Text → Text
emulated_cpu arch =
    if arch == text "aarch64" || arch == text "s390x"
    then text "max"
    else if arch == text "riscv64"
    then text "rv64,sscofpmf=true"
    else text "qemu64"

unfoldable pub kvm_args : Machine → Text → Text → List Text
unfolding host_supports_kvm emulated_cpu
kvm_args m arch kvm_cpu_args =
    if host_supports_kvm m arch
    then text "-enable-kvm"
      ∷ text "-cpu"
      ∷ (if is_empty kvm_cpu_args then text "host" else kvm_cpu_args)
      ∷ []
    else text "-cpu" ∷ emulated_cpu arch ∷ []

unfoldable pub machine_args : Text → List Text
machine_args arch =
    if arch == text "aarch64"
    then text "-machine" ∷ text "virt,gic-version=3" ∷ []
    else if arch == text "riscv64"
    then text "-machine" ∷ text "virt" ∷ []
    else []

unfoldable pub machine_protocol_args : Text → List Text
machine_protocol_args sock = text "-qmp" ∷ (text "unix:" ++ sock ++ text ",server=on,wait=off") ∷ []

unfoldable pub plan9_fs_args : Text → Text → Text → Bool → List Text
plan9_fs_args host_shared id mount_tag ro =
    let path = if is_empty host_shared then text "." else host_shared in
    let options =
      text "local,id="
      ++ id
      ++ text ",path="
      ++ path
      ++ text ",mount_tag="
      ++ mount_tag
      ++ text ",security_model=none,multidevs=remap" in
    text "-virtfs" ∷ (if ro then options ++ text ",readonly=on" else options) ∷ []

unfoldable pub virtio_serial_args : Text → List Text
virtio_serial_args host_sock =
    text "-device"
    ∷ text "virtio-serial"
    ∷ text "-chardev"
    ∷ (text "socket,path=" ++ host_sock ++ text ",server=on,wait=off,id=cmdout")
    ∷ text "-device"
    ∷ (text "virtserialport,chardev=cmdout,name=" ++ command_output_port_name)
    ∷ []

-- The name of a mount, its id and its tag in the guest: `format!("mount{}", hash(..))`.
unfoldable pub mount_name : Machine → Mount → Text
unfolding show
mount_name m mount = text "mount" ++ show (m.hash mount.host_path)

unfoldable pub mount_args : Machine → List (Text × Mount) → List Text
unfolding plan9_fs_args mount_name
mount_args m [] = []
mount_args m ((guest, mount) ∷ mounts) =
    plan9_fs_args mount.host_path (mount_name m mount) (mount_name m mount) (not mount.writable)
    ++ mount_args m mounts

unfoldable pub vmconfig_args : Machine → VmConfig → List Text
unfolding mount_args show
vmconfig_args m vm =
    text "-smp"
    ∷ show vm.num_cpus
    ∷ text "-m"
    ∷ vm.memory
    ∷ (mount_args m vm.mounts ++ vm.extra_args)
