-- ===== src/Qemu/Args/Firmware/Choice.antt =====
-- Which firmware a UEFI guest boots with.
use vmtest.Base.{
  List, [], ◌∷◌, Option, none, some, Bool, true, false, Text, text, ◌≡◌, refl, inl, inr, Bool-cases,
}
use vmtest.Qemu.Args.Firmware.{ovmf_paths, choose, uefi_firmware_args}

-- `chosen` is the first of the paths that exists, or the default if none exists.
pub data FirstExisting (exists : Text → Bool) (default : Text) : List Text → Text → Type 0 where
  nothing : FirstExisting exists default [] default
  found :
      {path : Text} {paths : List Text}
      → exists path ≡ true
      → FirstExisting exists default (path ∷ paths) path
  skipped :
      {path : Text} {paths : List Text} {chosen : Text}
      → exists path ≡ false
      → FirstExisting exists default paths chosen
      → FirstExisting exists default (path ∷ paths) chosen

choose-FirstExisting :
    (exists : Text → Bool) (default : Text) (paths : List Text)
    → FirstExisting exists default paths (choose exists default paths)
unfolding choose
choose-FirstExisting exists default [] = nothing
choose-FirstExisting exists default (path ∷ paths) = elim (Bool-cases (exists path)) [
  | inl e ↦ rw e (found e)
  | inr e ↦ rw e (skipped e (choose-FirstExisting exists default paths))
]

-- The firmware that the arguments name: the user's, or the first of the known paths that exists.
pub data Firmware (exists : Text → Bool) : Option Text → Text → Type 0 where
  given : {path : Text} → Firmware exists (some path) path
  searched :
      {path : Text}
      → FirstExisting exists (text "/usr/share/edk2/ovmf/OVMF_CODE.fd") ovmf_paths path
      → Firmware exists none path

-- The arguments are `-bios` and one path: the configured one if there is one, even if it does
-- not exist; else the first known path that exists on the host; else the first known path.
pub uefi_firmware_args-Firmware :
    (exists : Text → Bool) (bios : Option Text)
    → (path : Text) × (uefi_firmware_args exists bios ≡ text "-bios" ∷ path ∷ [])
      × Firmware exists bios path
unfolding uefi_firmware_args
uefi_firmware_args-Firmware exists (some path) = (path, refl, given)
uefi_firmware_args-Firmware exists none =
    (choose exists _ ovmf_paths, refl, searched (choose-FirstExisting exists _ ovmf_paths))
