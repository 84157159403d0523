-- ===== src/Tests/Arguments.antt =====
-- QEMU's arguments and the agent's version on concrete data.
use vmtest.Base.{
  [], ◌∷◌, ◌++◌, none, some, Bool, Text, text, text_eq, ◌==◌, nat_eq, ok, ◌≡◌, ◌≢◌, refl, arith,
  split_whitespace, is_whitespace, split, trim_end, trim_start, text_beq, show,
}
use vmtest.Base.Strings.Laws.{NoSpace-of_spaceless}
use vmtest.Config.{Target, Config}
use vmtest.Vmtest.Instance
use vmtest.Vmtest.Instance.{Vmtest, setup_target}
use vmtest.Vmtest.Instance.Laws.{setup_target-qemu_args}
use vmtest.Vmtest.Validate.{check_target}
use vmtest.Vmtest.Validate.Laws.{IsValid}
use vmtest.Qga.Version.{Version, new}
use vmtest.Qga.Version.Laws.{print, new-print}
use vmtest.Qemu.Args.{Machine}
use vmtest.Qemu.Args.Kernel.{cmdline, base_cmdline, additional_words}
use vmtest.Qemu.Args.Kernel.Words.{words-cmdline}
use vmtest.Qemu.Args.Firmware.{uefi_firmware_args}
use vmtest.Qemu.Args.Firmware.Choice.{Firmware, uefi_firmware_args-Firmware}
use vmtest.Qemu.Invocation.{Sockets, qemu_args}
use vmtest.Tests.Validation.{kernel_target}

-- A host whose only file is the second of the known firmware paths.
abbrev ovmf_host : Text → Bool
ovmf_host path = path == text "/usr/share/OVMF/OVMF_CODE.fd"

abbrev pub machine : Machine
machine = record { host_arch = text "x86_64"; exists = ovmf_host; hash = λ path. 7 }

words-cmdline_example :
    split_whitespace (cmdline (text "x86_64") (text "/tmp/init.sh") (some (text " quiet  debug")))
    ≡ base_cmdline (text "x86_64") (text "/tmp/init.sh")
      ++ additional_words (some (text " quiet  debug"))
words-cmdline_example =
    words-cmdline (text "x86_64") (text "/tmp/init.sh") (some (text " quiet  debug"))
      (NoSpace-of_spaceless (text "/tmp/init.sh") (unfold is_whitespace in refl))

uefi_firmware_args-Firmware_example :
    (path : Text) × (uefi_firmware_args ovmf_host none ≡ text "-bios" ∷ path ∷ [])
    × Firmware ovmf_host none path
uefi_firmware_args-Firmware_example = uefi_firmware_args-Firmware ovmf_host none

firmware_found :
    uefi_firmware_args ovmf_host none ≡ text "-bios" ∷ text "/usr/share/OVMF/OVMF_CODE.fd" ∷ []
unfolding uefi_firmware_args text_beq
firmware_found = refl

abbrev pub socks : Sockets
socks = record { qga = text "/tmp/qga"; qmp = text "/tmp/qmp"; command = text "/tmp/cmdout" }

version_read : new (text " 8.1.255 ") ≡ ok (record { major = 8; minor = 1; patch = 255 })
unfolding new is_whitespace split trim_end trim_start
version_read = refl

abbrev version : Version
version = record { major = 10; minor = 0; patch = 2 }

new-print_example : new (print version) ≡ ok version
new-print_example =
    new-print version
      (record { major_lt = omega arith; minor_lt = omega arith; patch_lt = omega arith })

abbrev pub one_config : Config
one_config = record { target = kernel_target ∷ [] }

abbrev pub instance_of_one : Vmtest
instance_of_one = record { base = text "/home"; config = one_config }

constructed : Instance.new (text "/home") one_config ≡ ok instance_of_one
unfolding Instance.new check_target show
constructed = refl

setup_target-qemu_args_example :
    (t : Target) × (setup_target instance_of_one 0 ≡ ok t)
    × IsValid t
    × (qemu_args machine socks (text "/tmp/init.sh") (text "/home") t ≢ none)
setup_target-qemu_args_example =
    setup_target-qemu_args (text "/home") one_config instance_of_one 0 constructed (omega arith)
      machine socks (text "/tmp/init.sh")
