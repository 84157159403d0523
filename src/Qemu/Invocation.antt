-- ===== src/Qemu/Invocation.antt =====
-- The command line that `Qemu::new` of src/qemu.rs puts together.
pub mod Order
pub mod Exports
use vmtest.Base.{
  List, [], ◌∷◌, ◌++◌, Option, none, some, Bool, true, false, Text, text, get_or, is_some,
  if◌then◌else◌,
}
use vmtest.Config.{Target}
use vmtest.Qemu.Args.{
  Machine, qemu_default_args, rootfs_9p_fs_mount_tag, shared_9p_fs_mount_tag, drive_args,
  guest_agent_args, kvm_args, machine_args, machine_protocol_args, plan9_fs_args,
  virtio_serial_args, vmconfig_args,
}
use vmtest.Qemu.Args.Kernel.{kernel_args}
use vmtest.Qemu.Args.Firmware.{uefi_firmware_args}

-- The three socket paths of an instance.
pub record Sockets : Type 0 where
  pub qga : Text
  pub qmp : Text
  pub command : Text

-- The program: `qemu_command`, or `qemu-system-` with the architecture.
unfoldable pub program : Target → Text
program t = get_or t.qemu_command (text "qemu-system-" ++ t.arch)

-- The arguments up to the root file system.
unfoldable pub front_args : Machine → Sockets → Target → List Text
unfolding kvm_args machine_args machine_protocol_args guest_agent_args virtio_serial_args
front_args m socks t =
    qemu_default_args
    ++ (text "-serial"
        ∷ text "mon:stdio"
        ∷ (kvm_args m t.arch (get_or t.kvm_cpu_args (text "host"))
            ++ (machine_args t.arch
                ++ (machine_protocol_args socks.qmp
                    ++ (guest_agent_args socks.qga ++ virtio_serial_args socks.command)))))

-- The branches on the image and the kernel. `none` is the `panic!` of the last one.
unfoldable pub root_args : Machine → Text → Target → Option Text → Option Text → Option (List Text)
unfolding drive_args uefi_firmware_args plan9_fs_args kernel_args
root_args m guest_init t (some image) kernel =
    some (drive_args m image 1 ++ (if t.uefi then uefi_firmware_args m.exists t.vm.bios else []))
root_args m guest_init t none (some kernel) = some (
    plan9_fs_args t.rootfs (text "root") rootfs_9p_fs_mount_tag false
    ++ kernel_args kernel t.arch guest_init t.kernel_args)
root_args m guest_init t none none = none

-- The shared mount and what the VM's configuration adds.
unfoldable pub back_args : Machine → Text → Target → List Text
unfolding plan9_fs_args vmconfig_args
back_args m host_shared t =
    plan9_fs_args host_shared (text "shared") shared_9p_fs_mount_tag false ++ vmconfig_args m t.vm

unfoldable pub qemu_args : Machine → Sockets → Text → Text → Target → Option (List Text)
unfolding front_args root_args back_args
qemu_args m socks guest_init host_shared t = elim (root_args m guest_init t t.image t.kernel) [
  | none ↦ none
  | some root ↦ some (front_args m socks t ++ (root ++ back_args m host_shared t))
]
