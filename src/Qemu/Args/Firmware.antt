-- ===== src/Qemu/Args/Firmware.antt =====
-- `uefi_firmware_args` of src/qemu.rs.
pub mod Choice
use vmtest.Base.{List, [], ◌∷◌, Option, none, some, Bool, Text, text, if◌then◌else◌}

abbrev pub ovmf_paths : List Text
ovmf_paths =
    text "/usr/share/edk2/ovmf/OVMF_CODE.fd"
    ∷ text "/usr/share/OVMF/OVMF_CODE.fd"
    ∷ text "/usr/share/ovmf/OVMF.fd"
    ∷ text "/usr/share/edk2/x64/OVMF.4m.fd"
    ∷ text "/usr/share/edk2-ovmf/x64/OVMF_CODE.fd"
    ∷ []

-- The loop over the paths; `chosen` is what it leaves if it finds none.
unfoldable pub choose : (Text → Bool) → Text → List Text → Text
choose exists chosen [] = chosen
choose exists chosen (path ∷ paths) =
    let rest = choose exists chosen paths in if exists path then path else rest

-- `OVMF_PATHS[0]` is what the loop starts from.
unfoldable pub uefi_firmware_args : (Text → Bool) → Option Text → List Text
unfolding choose
uefi_firmware_args exists (some path) = text "-bios" ∷ path ∷ []
uefi_firmware_args exists none =
    text "-bios" ∷ choose exists (text "/usr/share/edk2/ovmf/OVMF_CODE.fd") ovmf_paths ∷ []
