-- ===== src/Vmtest/Validate.antt =====
-- `validate_config` of src/vmtest.rs. A text of the source's `bail!` is written out.
pub mod Laws
use vmtest.Base.{
  ℕ, suc, ◌+◌, List, [], ◌∷◌, ◌++◌, Option, none, some, Bool, true, false, ◌&&◌, not, Text, text,
  is_empty, is_some, is_none, show, Result, ok, bail, ◌>>◌, if◌then◌else◌,
}
use vmtest.Config.{Target, Config}

abbrev quoted : Text → Text
quoted name = text "Target '" ++ name ++ text "'"

-- `if failing { bail!(message) }`
abbrev pub reject_if : Bool → Text → Result (Unit {0})
reject_if true message = bail message
reject_if false message = ok tt

-- The `match` on the image and the kernel.
unfoldable pub check_boot : Text → Option Text → Option Text → Result (Unit {0})
check_boot name none none = bail (quoted name ++ text " must specify 'image' or 'kernel'")
check_boot name (some _) (some _) =
    bail (quoted name ++ text " specified both 'image' and 'kernel'")
check_boot name _ _ = ok tt

-- `if let Some(path) = path { if path is empty { bail!(message) } }`
unfoldable pub check_path : Option Text → Text → Result (Unit {0})
check_path none message = ok tt
check_path (some path) message = reject_if (is_empty path) message

-- The body of the loop.
unfoldable pub check_target : ℕ → Target → Result (Unit {0})
unfolding check_boot check_path show
check_target idx t = do
  reject_if (is_empty t.name) (text "Target index=" ++ show idx ++ text " name empty")
  check_boot t.name t.image t.kernel
  reject_if (t.uefi && is_none t.image) (quoted t.name ++ text " must specify 'image' with 'uefi'")
  reject_if (not t.uefi && is_some t.vm.bios)
      (quoted t.name ++ text " cannot specify a bios without setting 'uefi'")
  reject_if (is_some t.kernel_args && is_none t.kernel)
      (quoted t.name ++ text " must specify 'kernel' with 'kernel_args'")
  check_path t.image (quoted t.name ++ text " has empty image path")
  check_path t.kernel (quoted t.name ++ text " has empty kernel path")
  reject_if (is_empty t.command) (quoted t.name ++ text " has empty command")

-- The loop over the targets from index `idx` on.
unfoldable pub validate_from : ℕ → List Target → Result (Unit {0})
validate_from idx [] = ok tt
validate_from idx (t ∷ ts) = do check_target idx t; validate_from (idx + 1) ts

unfoldable pub validate_config : Config → Result (Unit {0})
unfolding validate_from
validate_config config = validate_from 0 config.target
