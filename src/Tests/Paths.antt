-- ===== src/Tests/Paths.antt =====
-- The cases that src/qemu.rs tests `guest_init_path` with.
use vmtest.Base.{Option, some, Text, text, text_beq, Bool, true, false, Result, ok, ◌≡◌, refl}
use vmtest.Base.Strings.Laws.{Lacks-of_free}
use vmtest.Base.{◌∷◌, ◌++◌, last?}
use vmtest.Paths.{slash, push, is_absolute}
use vmtest.Qemu.Init.{guest_init_path}
use vmtest.Qemu.Init.Laws.{IsName, guest_init_path-push}

init : Text → Text → Option (Result Text)
unfolding guest_init_path
init = guest_init_path (λ path. path) (λ dir. text "")

no_trailing_slash : init (text "/tmp") (text "/foo/tmp/bar.sh") ≡ some (ok (text "/tmp/bar.sh"))
unfolding init text_beq
no_trailing_slash = refl

trailing_slash : init (text "/tmp/") (text "/foo/tmp/bar.sh") ≡ some (ok (text "/tmp/bar.sh"))
unfolding init text_beq
trailing_slash = refl

guest_root : init (text "/") (text "/foo/tmp/bar.sh") ≡ some (ok (text "/bar.sh"))
unfolding init text_beq
guest_root = refl

whole_directory :
    init (text "/foo/tmp") (text "/foo/tmp/bar.sh") ≡ some (ok (text "/foo/tmp/bar.sh"))
unfolding init text_beq
whole_directory = refl

abbrev is_error : Option (Result Text) → Bool
is_error (some (ok path)) = false
is_error (some e) = true
is_error _ = false

not_in_temp_dir : is_error (init (text "/tmp") (text "/foo/bar.sh")) ≡ true
unfolding init text_beq
not_in_temp_dir = refl

not_a_suffix : is_error (init (text "/foo/tmp") (text "/bar/tmp/bar.sh")) ≡ true
unfolding init text_beq
not_a_suffix = refl

script : IsName (text "vmtest-init12345.sh")
script = record {
  not_empty = λ e. cc;
  not_dot = λ e. cc;
  not_dots = λ e. cc;
  one_part = Lacks-of_free slash (text "vmtest-init12345.sh") refl;
}

guest_init_path-push_example :
    guest_init_path
      (λ path. path)
      (λ dir. text "")
      (text "/tmp")
      ((text "/srv/rootfs" ++ text "/tmp") ++ slash ∷ text "vmtest-init12345.sh")
    ≡ some (ok (push (text "/tmp") (text "vmtest-init12345.sh")))
guest_init_path-push_example =
    guest_init_path-push (text "/srv/rootfs") (text "tmp") (text "vmtest-init12345.sh") (λ e. cc)
      script (λ path. path) (λ dir. text "")

-- Which is this path.
pushed : push (text "/tmp") (text "vmtest-init12345.sh") ≡ text "/tmp/vmtest-init12345.sh"
unfolding push is_absolute last?
pushed = refl
