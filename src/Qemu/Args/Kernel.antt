-- ===== src/Qemu/Args/Kernel.antt =====
-- `console_device` and `kernel_args` of src/qemu.rs.
pub mod Words
use vmtest.Base.{
  List, [], ◌∷◌, ◌++◌, Option, none, some, Text, text, text_eq, ◌==◌, join, split_whitespace,
  if◌then◌else◌,
}
use vmtest.Qemu.Args.{mount_opts_9p_fs}

unfoldable pub console_device : Text → Text
console_device arch = if arch == text "aarch64" then text "ttyAMA0" else text "0"

-- The guest's command line before the additional arguments.
unfoldable pub base_cmdline : Text → Text → List Text
unfolding console_device
base_cmdline arch init =
    text "rootfstype=9p"
    ∷ (text "rootflags=" ++ mount_opts_9p_fs)
    ∷ text "rw"
    ∷ (text "earlyprintk=serial," ++ console_device arch ++ text ",115200")
    ∷ text "printk.devkmsg=on"
    ∷ (text "console=" ++ console_device arch ++ text ",115200")
    ∷ text "loglevel=7"
    ∷ text "raid=noautodetect"
    ∷ (text "init=" ++ init)
    ∷ text "panic=-1"
    ∷ []

-- `cmdline.extend(kargs.split_whitespace())`
unfoldable pub additional_words : Option Text → List Text
unfolding split_whitespace
additional_words none = []
additional_words (some kargs) = split_whitespace kargs

unfoldable pub cmdline : Text → Text → Option Text → Text
unfolding base_cmdline additional_words join
cmdline arch init kargs = join (text " ") (base_cmdline arch init ++ additional_words kargs)

unfoldable pub kernel_args : Text → Text → Text → Option Text → List Text
unfolding cmdline
kernel_args kernel arch init additional_kargs =
    text "-kernel"
    ∷ kernel
    ∷ text "-no-reboot"
    ∷ text "-append"
    ∷ cmdline arch init additional_kargs
    ∷ []
