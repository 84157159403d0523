-- ===== src/Qemu/Init/Laws.antt =====
-- The path of the init script in the guest.
use vmtest.Base.{
  List, [], ◌∷◌, ◌++◌, some, true, Text, text, text_eq, text_beq_iff, ok, ◌≡◌, ◌≢◌, refl, ap, ◌∙◌,
  arith, split,
}
use vmtest.Base.Strings.Laws.{Lacks, split_of_Lacks}
use vmtest.Paths.{
  slash, is_absolute, Component, normal, body_components, components, last_component, parent_of,
  parent_behind, parent, name_of, file_name, ends_with, strip_root, push,
}
use vmtest.Paths.Components.{
  components-append, last_component-append, all_but_last-append, ends_with-append,
}
use vmtest.Qemu.Init.{guest_path, check_suffix, check_parent, guest_init_path}

-- The name of a file.
pub record IsName (name : Text) : Type 0 where
  pub not_empty : name ≢ []
  pub not_dot : name ≢ text "."
  pub not_dots : name ≢ text ".."
  pub one_part : Lacks slash name

body_of_name : (name : Text) → IsName name → body_components (split slash name) ≡ normal name ∷ []
body_of_name name n =
    rw (split_of_Lacks slash name n.one_part) (kept name n.not_empty n.not_dot n.not_dots)
  where
    kept :
        (p : Text)
        → p ≢ []
        → p ≢ text "."
        → p ≢ text ".."
        → body_components (p ∷ []) ≡ normal p ∷ []
    kept [] e d t = absurd (e refl)
    kept (c ∷ p) e d t =
        ground (arith, text_beq_iff (c ∷ p) (text "."), text_beq_iff (c ∷ p) (text ".."))

-- The parent, and the name, of a path behind whose separator a name stands.
parent-append :
    (dir name : Text)
    → dir ≢ []
    → IsName name
    → parent (dir ++ slash ∷ name) ≡ some (components dir)
unfolding parent
parent-append dir name ne n =
    let parts : components (dir ++ slash ∷ name) ≡ components dir ++ normal name ∷ [] =
      components-append dir name ne ∙ ap (λ cs. components dir ++ cs) (body_of_name name n) in
    ap parent_of parts
    ∙ ap (λ o. parent_behind o (components dir ++ normal name ∷ []))
        (last_component-append (components dir) (normal name))
    ∙ ap some (all_but_last-append (components dir) (normal name))

file_name-append :
    (dir name : Text) → dir ≢ [] → IsName name → file_name (dir ++ slash ∷ name) ≡ some name
unfolding file_name
file_name-append dir name ne n =
    let parts : components (dir ++ slash ∷ name) ≡ components dir ++ normal name ∷ [] =
      components-append dir name ne ∙ ap (λ cs. components dir ++ cs) (body_of_name name n) in
    ap (λ cs. name_of (last_component cs)) parts
    ∙ ap name_of (last_component-append (components dir) (normal name))

-- The directory of temporary files, below a root file system.
module _ (rootfs dir name : Text) (ne : rootfs ≢ []) (n : IsName name) where
  -- `dir` starts with a separator.
  abbrev temp_dir : Text
  temp_dir = slash ∷ dir

  abbrev host_path : Text
  host_path = (rootfs ++ temp_dir) ++ slash ∷ name

  rooted-ne-nil : rootfs ++ temp_dir ≢ []
  rooted-ne-nil = nonempty rootfs
    where
      nonempty : (r : Text) → r ++ temp_dir ≢ []
      nonempty [] e = cc
      nonempty (c ∷ r) e = cc

  strip_root_temp_dir : strip_root (components temp_dir) ≡ some (body_components (split slash dir))
  unfolding components is_absolute split
  strip_root_temp_dir = refl

  suffixed : ends_with (components (rootfs ++ temp_dir)) (body_components (split slash dir)) ≡ true
  suffixed =
      ap (λ cs. ends_with cs (body_components (split slash dir))) (components-append rootfs dir ne)
      ∙ ends_with-append (components rootfs) (body_components (split slash dir))

  -- If the directory of temporary files is absolute, the path of the root file system is not empty,
  -- and the name is neither empty nor `.` nor `..` and has no separator: the script that the host
  -- has in that directory below the root file system, behind a separator, is found in the guest in
  -- the directory itself, under the same name; and there is neither an error nor a panic.
  pub guest_init_path-push :
      (show_path : Text → Text) (show_parent : List Component → Text)
      → guest_init_path show_path show_parent temp_dir host_path ≡ some (ok (push temp_dir name))
  unfolding guest_init_path
  guest_init_path-push show_path show_parent =
      ap (check_parent show_path show_parent temp_dir host_path)
        (parent-append (rootfs ++ temp_dir) name rooted-ne-nil n)
      ∙ ap (check_suffix show_path show_parent temp_dir host_path (components (rootfs ++ temp_dir)))
          strip_root_temp_dir
      ∙ rw suffixed (
          ap (guest_path show_path show_parent temp_dir)
            (file_name-append (rootfs ++ temp_dir) name rooted-ne-nil n))
