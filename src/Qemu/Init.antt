-- ===== src/Qemu/Init.antt =====
-- `guest_init_path` of src/qemu.rs. `none` is a panic. How `{:?}` shows a path is a parameter.
pub mod Laws
use vmtest.Base.{
  List, [], ◌∷◌, ◌++◌, Option, none, some, Text, text, Result, ok, err, bail, if◌then◌else◌,
}
use vmtest.Paths.{Component, components, parent, file_name, ends_with, strip_root, push}

-- The text of the `bail!`, and the other two.
abbrev no_suffix : (Text → Text) → (List Component → Text) → Text → List Component → Text
no_suffix show_path show_parent guest_temp_dir dir =
    text "guest_temp_dir "
    ++ show_path guest_temp_dir
    ++ text " should be a suffix of host_init_path.parent() "
    ++ show_parent dir

module _ (show_path : Text → Text) (show_parent : List Component → Text) where
  -- The last two lines: `file_name().unwrap()` panics where there is no name.
  abbrev pub guest_path : Text → Option Text → Option (Result Text)
  guest_path guest_temp_dir none = none
  guest_path guest_temp_dir (some name) = some (ok (push guest_temp_dir name))

  abbrev pub check_suffix :
      Text → Text → List Component → Option (List Component) → Option (Result Text)
  check_suffix guest_temp_dir host_init_path dir none = some (
      err (
        (text "guest_temp_dir " ++ show_path guest_temp_dir ++ text " should be an absolute path")
        ∷ text "prefix not found"
        ∷ []))
  check_suffix guest_temp_dir host_init_path dir (some suffix) =
      if ends_with dir suffix
      then guest_path guest_temp_dir (file_name host_init_path)
      else some (bail (no_suffix show_path show_parent guest_temp_dir dir))

  abbrev pub check_parent : Text → Text → Option (List Component) → Option (Result Text)
  check_parent guest_temp_dir host_init_path none =
      some
        (bail (text "host_init_path " ++ show_path host_init_path ++ text " should have a parent"))
  check_parent guest_temp_dir host_init_path (some dir) =
      check_suffix guest_temp_dir host_init_path dir (strip_root (components guest_temp_dir))

  unfoldable pub guest_init_path : Text → Text → Option (Result Text)
  unfolding components parent file_name ends_with push
  guest_init_path guest_temp_dir host_init_path =
      check_parent guest_temp_dir host_init_path (parent host_init_path)
