-- ===== src/Config/Load.antt =====
-- How `serde` builds the configuration from the tables of a TOML file: what stands for a key that
-- is missing, by the attributes in src/config.rs. A key that has no default, and is no `Option`, is
-- always there: without it there is no such table.
use vmtest.Base.{ℕ, List, [], Option, none, some, Bool, false, Text, get_or, map}
use vmtest.Config.{
  Mount, VmConfig, Target, Config, default_cpus, default_memory, default_vm, default_kvm_cpu_args,
  default_rootfs,
}

pub record MountTable : Type 0 where
  pub host_path : Text
  pub writable : Option Bool

pub record VmTable : Type 0 where
  pub num_cpus : Option ℕ
  pub memory : Option Text
  pub mounts : Option (List (Text × MountTable))
  pub bios : Option Text
  pub extra_args : Option (List Text)

pub record TargetTable : Type 0 where
  pub name : Text
  pub image : Option Text
  pub uefi : Option Bool
  pub kernel : Option Text
  pub kernel_args : Option Text
  pub kvm_cpu_args : Option Text
  pub rootfs : Option Text
  pub arch : Option Text
  pub qemu_command : Option Text
  pub command : Text
  pub vm : Option VmTable

unfoldable pub load_mount : MountTable → Mount
load_mount t = record { host_path = t.host_path; writable = get_or t.writable false }

abbrev pub load_entry : Text × MountTable → Text × Mount
load_entry (guest, t) = (guest, load_mount t)

unfoldable pub load_vm : VmTable → VmConfig
load_vm t = record {
  num_cpus = get_or t.num_cpus default_cpus;
  memory = get_or t.memory default_memory;
  mounts = map load_entry (get_or t.mounts []);
  bios = t.bios;
  extra_args = get_or t.extra_args [];
}

abbrev pub or_default_vm : Option VmTable → VmConfig
or_default_vm none = default_vm
or_default_vm (some t) = load_vm t

-- A key that is given holds a value, also where the field is an `Option`.
abbrev pub given_or_host : Option Text → Option Text
given_or_host none = default_kvm_cpu_args
given_or_host (some args) = some args

-- `host_arch` is `std::env::consts::ARCH`.
unfoldable pub load_target : Text → TargetTable → Target
unfolding load_vm load_mount
load_target host_arch t = record {
  name = t.name;
  image = t.image;
  uefi = get_or t.uefi false;
  kernel = t.kernel;
  kernel_args = t.kernel_args;
  kvm_cpu_args = given_or_host t.kvm_cpu_args;
  rootfs = get_or t.rootfs default_rootfs;
  arch = get_or t.arch host_arch;
  qemu_command = t.qemu_command;
  command = t.command;
  vm = or_default_vm t.vm;
}

unfoldable pub load_config : Text → List TargetTable → Config
unfolding load_target
load_config host_arch ts = record { target = map (load_target host_arch) ts }
