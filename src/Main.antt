-- ===== src/Main.antt =====
-- src/main.rs: the command line. `none` is a panic. What the system, the regular expressions and
-- the TOML parser give is a parameter.
pub mod Log
pub mod Laws
pub mod File
pub mod Program
use vmtest.Base.{
  ℕ, ◌%◌, ◌-◌, ◌+◌, List, [], ◌∷◌, Option, none, some, Bool, true, false, Text, text, filter,
  get_or, is_some, join, Result, ok, err, context, ◌>>=◌,
}
use vmtest.Base.Integers.{ℤ, pos, negsuc}
use vmtest.Config.{Target, Config, default_vm, default_rootfs, default_kvm_cpu_args}
use vmtest.Config.Load.{TargetTable, load_config}
use vmtest.Paths.{file_name}
use vmtest.Paths.Parent.{parent_path}
use vmtest.Vmtest.Instance.{Vmtest}
use vmtest.Vmtest.Instance

pub record Args : Type 0 where
  pub config : Option Text
  pub filter : Text
  pub kernel : Option Text
  pub kargs : Option Text
  pub kvm_cpu_args : Option Text
  pub rootfs : Text
  pub arch : Text
  pub qemu_command : Option Text
  pub command : List Text

-- `LogTarget`: where the logger writes to.
pub data LogTarget : Type 0 where
  stderr : LogTarget
  -- the pipe to a `DeferredLog`
  deferred : LogTarget

pub record System : Type 0 where
  -- `stdout().is_terminal()`, and `try_init` of the logger for its target
  pub is_terminal : Bool
  pub try_init : LogTarget → Result (Unit {0})
  -- `std::env::consts::ARCH`
  pub host_arch : Text
  pub current_dir : Result Text
  pub read_to_string : Text → Result Text
  -- `Regex::new`, and `is_match` of the expression
  pub regex : Text → Result (Text → Bool)
  -- `toml::from_str`, up to the tables
  pub parse_toml : Text → Result (List TargetTable)

-- The arguments where none is given: the `default_value`s.
abbrev pub default_args : Text → Args
default_args host_arch = record {
  config = none;
  filter = text ".*";
  kernel = none;
  kargs = none;
  kvm_cpu_args = default_kvm_cpu_args;
  rootfs = default_rootfs;
  arch = host_arch;
  qemu_command = none;
  command = [];
}

unfoldable pub log_target : Bool → LogTarget
log_target true = deferred
log_target false = stderr

unfoldable pub init_logging : System → Result (Unit {0})
unfolding log_target
init_logging sys =
    context (text "Failed to init env_logger") (sys.try_init (log_target sys.is_terminal))

-- The one target of kernel mode.
unfoldable pub kernel_target : Args → Text → Text → Target
unfolding join
kernel_target args kernel name = record {
  name = name;
  image = none;
  uefi = false;
  kernel = some kernel;
  rootfs = args.rootfs;
  arch = args.arch;
  kernel_args = args.kargs;
  kvm_cpu_args = args.kvm_cpu_args;
  qemu_command = args.qemu_command;
  command = join (text " ") args.command;
  vm = default_vm;
}

-- `file_name().unwrap()` panics where the path of the kernel has no name.
abbrev pub kernel_config : Args → Text → Text → Option Text → Option (Result Vmtest)
kernel_config args kernel cwd none = none
kernel_config args kernel cwd (some name) =
    some (Instance.new cwd (record { target = kernel_target args kernel name ∷ [] }))

abbrev pub from_kernel : Args → Text → Result Text → Option (Result Vmtest)
from_kernel args kernel (err e) = some (err e)
from_kernel args kernel (ok cwd) = kernel_config args kernel cwd (file_name kernel)

-- The targets that the filter lets through.
unfoldable pub filter_targets : (Text → Bool) → Config → Config
filter_targets is_match c = record { target = filter (λ t. is_match t.name) c.target }

-- `parent().unwrap()` panics where the path of the file has no parent.
abbrev pub from_base : Config → Option Text → Option (Result Vmtest)
from_base c none = none
from_base c (some base) = some (Instance.new base c)

abbrev pub from_file : Text → Result Config → Option (Result Vmtest)
from_file path (err e) = some (err e)
from_file path (ok c) = from_base c (parent_path path)

module _ (sys : System) where
  -- The targets of a configuration file that the filter lets through.
  unfoldable pub read_config : Text → Text → Result Config
  unfolding filter_targets load_config
  read_config path pattern = do
    contents ← context (text "Failed to read config file") (sys.read_to_string path)
    is_match ← context (text "Failed to compile regex") (sys.regex pattern)
    tables ← context (text "Failed to parse config") (sys.parse_toml contents)
    ok (filter_targets is_match (load_config sys.host_arch tables))

  abbrev pub config_for : Args → Option Text → Option (Result Vmtest)
  config_for args (some kernel) =
      from_kernel args kernel (context (text "Failed to get current directory") sys.current_dir)
  config_for args none =
      let path = get_or args.config (text "vmtest.toml") in
      from_file path (read_config path args.filter)

  unfoldable pub config : Args → Option (Result Vmtest)
  unfolding kernel_target file_name parent_path Instance.new read_config
  config args = config_for args args.kernel

unfoldable pub show_cmd : Args → Bool
show_cmd args = is_some args.kernel

-- What `exit(rc)` leaves of the code on Unix: its lowest eight bits.
unfoldable pub exit_status : ℤ → ℕ
exit_status (pos n) = n % 256
exit_status (negsuc n) = 255 - n % 256
