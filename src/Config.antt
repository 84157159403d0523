-- ===== src/Config.antt =====
-- src/config.rs: the data that a configuration file describes, and its defaults.
-- A `HashMap` is the list of its entries in iteration order.
pub mod Load
use vmtest.Base.{ℕ, List, [], Option, none, some, Bool, false, Text, text}

pub record Mount : Type 0 where
  pub host_path : Text
  pub writable : Bool

pub record VmConfig : Type 0 where
  pub num_cpus : ℕ
  pub memory : Text
  pub mounts : List (Text × Mount)
  pub bios : Option Text
  pub extra_args : List Text

abbrev pub default_cpus : ℕ
default_cpus = 2

abbrev pub default_memory : Text
default_memory = text "4G"

-- `VMConfig::default`
abbrev pub default_vm : VmConfig
default_vm = record {
  num_cpus = default_cpus;
  memory = default_memory;
  mounts = [];
  bios = none;
  extra_args = [];
}

pub record Target : Type 0 where
  pub name : Text
  pub image : Option Text
  pub uefi : Bool
  pub kernel : Option Text
  pub kernel_args : Option Text
  pub kvm_cpu_args : Option Text
  pub rootfs : Text
  pub arch : Text
  pub qemu_command : Option Text
  pub command : Text
  pub vm : VmConfig

abbrev pub default_rootfs : Text
default_rootfs = text "/"

abbrev pub default_kvm_cpu_args : Option Text
default_kvm_cpu_args = some (text "host")

-- `Target::default`; `host_arch` is `std::env::consts::ARCH`.
abbrev pub default_target : Text → Target
default_target host_arch = record {
  name = [];
  image = none;
  uefi = false;
  kernel = none;
  kernel_args = none;
  kvm_cpu_args = none;
  rootfs = default_rootfs;
  arch = host_arch;
  qemu_command = none;
  command = [];
  vm = default_vm;
}

pub record Config : Type 0 where
  pub target : List Target
