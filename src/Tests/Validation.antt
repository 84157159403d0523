-- ===== src/Tests/Validation.antt =====
-- src/vmtest.rs on a configuration of two targets.
use vmtest.Base.{[], ◌∷◌, some, true, Text, text, Error, ok, err, ◌≡◌, refl, ◌↔◌, All, show}
use vmtest.Config.{Target, Config, default_target}
use vmtest.Paths.{is_absolute, push}
use vmtest.Vmtest.Validate.{validate_config, check_target}
use vmtest.Vmtest.Validate.Laws.{IsValid, FirstFailure, validate_config-err}
use vmtest.Vmtest.Validate.Laws.{validate_config-IsValid}
use vmtest.Vmtest.Resolve.{resolve_target, resolve_path}
use vmtest.Vmtest.Resolve.Laws.{HasAbsolutePaths, resolve_target_twice}

abbrev pub kernel_target : Target
kernel_target = record (default_target (text "x86_64")) {
  name = text "kernel";
  kernel = some (text "bzImage");
  command = text "true";
}

abbrev both_target : Target
both_target = record kernel_target { image = some (text "disk.img") }

-- The second target has an image and a kernel.
abbrev bad_config : Config
bad_config = record { target = kernel_target ∷ both_target ∷ [] }

abbrev bad_config_error : Error
bad_config_error = text "Target 'kernel' specified both 'image' and 'kernel'" ∷ []

validate_config-IsValid_example :
    (validate_config bad_config ≡ ok tt) ↔ All IsValid bad_config.target
validate_config-IsValid_example = validate_config-IsValid bad_config

rejected : validate_config bad_config ≡ err bad_config_error
unfolding validate_config show check_target
rejected = refl

validate_config-err_example : FirstFailure bad_config.target 0 bad_config_error
validate_config-err_example = validate_config-err bad_config bad_config_error rejected

abbrev base : Text
base = text "/home/user"

base_absolute : is_absolute base ≡ true
unfolding is_absolute
base_absolute = refl

resolve_target_twice_example :
    HasAbsolutePaths (resolve_target base both_target)
    × (resolve_target (text "elsewhere") (resolve_target base both_target)
        ≡ resolve_target base both_target)
resolve_target_twice_example =
    resolve_target_twice base (text "elsewhere") both_target base_absolute

kernel_resolved : (resolve_target base kernel_target).kernel ≡ some (text "/home/user/bzImage")
unfolding resolve_target resolve_path is_absolute push
kernel_resolved = refl
