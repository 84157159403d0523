-- ===== src/Tests/CommandLine.antt =====
-- The command line, with a kernel and with a configuration file of two targets.
use vmtest.Base.{
  true, false, ℕ, suc, List, [], ◌∷◌, none, some, Text, text, text_eq, text_beq, ◌==◌, Result, ok,
  err, ◌≡◌, ◌≢◌, ◌↔◌, refl, All, arith, show,
}
use vmtest.Config.{Target}
use vmtest.Config.Load.{TargetTable, load_target}
use vmtest.Paths.Parent.{parent_path}
use vmtest.Qemu.Invocation.{qemu_args}
use vmtest.Vmtest.Instance
use vmtest.Vmtest.Instance.{Vmtest, setup_target}
use vmtest.Vmtest.Validate.{check_target}
use vmtest.Vmtest.Validate.Laws.{IsValid}
use vmtest.Main.{init_logging, Args, System, default_args, kernel_target, config}
use vmtest.Main.File.{Loaded, config_path, config-file}
use vmtest.Main.Laws.{KernelInstance, config-kernel, config-qemu_args}
use vmtest.Main.Log.{Files, Answer, write, flush, log_ops}
use vmtest.Main.Log.Laws.{on_opened, log_ops-lazy}
use vmtest.Tests.Arguments.{machine, socks}

-- A table with nothing but what it must have.
abbrev bare_table : Text → Text → TargetTable
bare_table name command = record {
  name = name;
  image = none;
  uefi = none;
  kernel = none;
  kernel_args = none;
  kvm_cpu_args = none;
  rootfs = none;
  arch = none;
  qemu_command = none;
  command = command;
  vm = none;
}

-- `Path::parent`
parent_of_name : parent_path (text "vmtest.toml") ≡ some []
unfolding parent_path
parent_of_name = refl

parent_in_directory : parent_path (text "ci//vm/./vmtest.toml/") ≡ some (text "ci//vm")
unfolding parent_path
parent_in_directory = refl

parent_in_root : parent_path (text "/vmtest.toml") ≡ some (text "/")
unfolding parent_path
parent_in_root = refl

parent_dotted : parent_path (text "./vmtest.toml") ≡ some (text ".")
unfolding parent_path
parent_dotted = refl

parent_of_parent : parent_path (text "a/..") ≡ some (text "a")
unfolding parent_path
parent_of_parent = refl

parent_of_root : parent_path (text "//.") ≡ none
unfolding parent_path
parent_of_root = refl

-- A system on which the filter is a literal name.
abbrev pub table : Text → TargetTable
table name = record (bare_table name (text "true")) { kernel = some (text "bzImage") }

abbrev pub sys : System
sys = record {
  is_terminal = true;
  try_init = λ target. ok tt;
  host_arch = text "x86_64";
  current_dir = ok (text "/home");
  read_to_string = λ path. ok path;
  regex = λ pattern. ok (λ name. name == pattern);
  parse_toml = λ contents. ok (table (text "a") ∷ table (text "b") ∷ []);
}

abbrev pub file_args : Args
file_args = record (default_args (text "x86_64")) {
  config = some (text "ci/vmtest.toml");
  filter = text "b";
}

abbrev kernel_args : Args
kernel_args = record (default_args (text "x86_64")) {
  filter = text "b";
  kernel = some (text "out/bzImage");
  command = text "echo" ∷ text "hi" ∷ [];
}

abbrev pub from_file : Vmtest
from_file = record {
  base = text "ci";
  config = record { target = load_target (text "x86_64") (table (text "b")) ∷ [] };
}

abbrev from_kernel : Vmtest
from_kernel = record {
  base = text "/home";
  config = record { target = kernel_target kernel_args (text "out/bzImage") (text "bzImage") ∷ [] };
}

pub logging : init_logging sys ≡ ok tt
unfolding init_logging
logging = refl

pub loaded : config sys file_args ≡ some (ok from_file)
unfolding config text_beq load_target Instance.new check_target show
loaded = refl

config-qemu_args_example :
    All IsValid from_file.config.target
    × ((t : Target) × (setup_target from_file 0 ≡ ok t)
        × IsValid t
        × (qemu_args machine socks (text "/tmp/init.sh") from_file.base t ≢ none))
config-qemu_args_example =
    config-qemu_args sys file_args from_file 0 loaded (omega arith) machine socks
      (text "/tmp/init.sh")

config-file_example : (config sys file_args ≡ some (ok from_file)) ↔ (
    (parent_path (config_path file_args) ≡ some from_file.base)
    × All IsValid from_file.config.target
    × Loaded sys file_args from_file.config.target)
config-file_example = config-file sys file_args from_file refl

config-kernel_example :
    (config sys kernel_args ≡ some (ok from_kernel))
    ↔ KernelInstance sys kernel_args (text "out/bzImage") from_kernel
config-kernel_example = config-kernel sys kernel_args (text "out/bzImage") from_kernel refl

-- The filter plays no part.
from_kernel_made : config sys kernel_args ≡ some (ok from_kernel)
unfolding config text_beq kernel_target Instance.new check_target show
from_kernel_made = refl

-- A kernel path that has no name is a panic.
nameless : config sys (record kernel_args { kernel = some (text "..") }) ≡ none
unfolding config text_beq
nameless = refl

-- What a table gets that gives nothing else, and what the command line does.
loaded_default : load_target (text "x86_64") (bare_table (text "a") (text "true")) ≡ record {
  name = text "a";
  image = none;
  uefi = false;
  kernel = none;
  kernel_args = none;
  kvm_cpu_args = some (text "host");
  rootfs = text "/";
  arch = text "x86_64";
  qemu_command = none;
  command = text "true";
  vm = record { num_cpus = 2; memory = text "4G"; mounts = []; bios = none; extra_args = [] };
}
unfolding load_target
loaded_default = refl

args_default :
    let args = default_args (text "x86_64") in
    (args.kvm_cpu_args ≡ some (text "host"))
    × (args.rootfs ≡ text "/")
    × (args.arch ≡ text "x86_64")
    × (args.qemu_command ≡ none)
args_default = (refl, refl, refl, refl)

-- The state of the file system is how often the log was opened.
abbrev files : Files ℕ Text
files = record {
  open_log = λ s. (ok (text ".vmtest.log"), suc s);
  write_file = λ f buf s. (ok 1, s);
  flush_file = λ f s. (ok tt, s);
}

abbrev refuse : ℕ → Result Text × ℕ
refuse s = (err (text "permission denied" ∷ []), s)

log_ops-lazy_example :
    (log_ops files [] none 0 ≡ some ([], (none, 0)))
    × (log_ops files (write (text "a") ∷ flush ∷ []) none 0
        ≡ on_opened files refuse (write (text "a") ∷ flush ∷ []) (files.open_log 0))
    × ((r : List Answer × ℕ) × (log_ops files
            (write (text "a") ∷ flush ∷ [])
            (some (text ".vmtest.log"))
            0
          ≡ some (r.0, (some (text ".vmtest.log"), r.1))))
log_ops-lazy_example =
    log_ops-lazy files refuse (write (text "a")) (flush ∷ []) 0 (text ".vmtest.log")
