-- ===== src/Guest/Mount/Success.antt =====
-- When `mount_in_guest` of src/qemu.rs succeeds.
use vmtest.Base.{
  ℕ, List, [], ◌∷◌, ◌++◌, Bool, true, false, Text, text, ◌≡◌, ◌↔◌, refl, sym, ap, ◌∙◌, arith,
}
use vmtest.Base.Integers.{pos, ℤ}
use vmtest.Host.{Host, World, done, Act, ◌>>=◌}
use vmtest.Qga.Version.{Version}
use vmtest.Guest.Mount.{mount_opts, require_zero, run_setup, mount_loop, mount_in_guest}
use vmtest.Host.Inversion.{bind-done, bind-inv}
use vmtest.Guest.Mount.Retry.{
  require_zero-done, require_zero-inv, Gives, Mounts, mount_loop-Mounts, mount_loop_of_Mounts,
}

module _ (H : Host) (fuel : ℕ) (version : Version) where
  abbrev pub mkdir_words : Text → List Text
  mkdir_words guest_path = text "-p" ∷ guest_path ∷ []

  -- The options of mount(1), for reading only or not.
  abbrev pub options : Bool → Text
  options true = text "trans=virtio,cache=mmap,msize=1048576,ro"
  options false = text "trans=virtio,cache=mmap,msize=1048576"

  abbrev pub mount_words : Text → Text → Bool → List Text
  mount_words guest_path mount_tag ro =
      text "-t" ∷ text "9p" ∷ text "-o" ∷ options ro ∷ mount_tag ∷ guest_path ∷ []

  options-mount_opts : (ro : Bool) → mount_opts ro ≡ options ro
  unfolding mount_opts
  options-mount_opts true = refl
  options-mount_opts false = refl

  abbrev mkdir_message : Text → Text
  mkdir_message guest_path = text "Failed to mkdir " ++ guest_path

  abbrev mount_message : Text → Text
  mount_message guest_path = text "Failed to mount " ++ guest_path

  -- What follows mkdir(1), and what follows the tries.
  abbrev check_mount : Text → ℤ → Act H.State (Unit {0})
  check_mount guest_path rc = require_zero (mount_message guest_path) rc

  abbrev mounting : Text → Text → Bool → Act H.State (Unit {0})
  mounting guest_path mount_tag ro =
      mount_loop H fuel version 5 0 (mount_words guest_path mount_tag ro) (pos 0)
      >>= check_mount guest_path

  mount_in_guest-words :
      (guest_path mount_tag : Text) (ro : Bool)
      → mount_in_guest H fuel version guest_path mount_tag ro ≡ (
          run_setup H fuel version (text "mkdir") (mkdir_words guest_path) >>= λ rc.
          require_zero (mkdir_message guest_path) rc >>= λ _. mounting guest_path mount_tag ro)
  unfolding mount_in_guest
  mount_in_guest-words guest_path mount_tag ro =
      ap
        (λ o. run_setup H fuel version (text "mkdir") (mkdir_words guest_path) >>= λ rc.
          require_zero (mkdir_message guest_path) rc >>= λ _.
          mount_loop H fuel version 5 0
            (text "-t" ∷ text "9p" ∷ text "-o" ∷ o ∷ mount_tag ∷ guest_path ∷ []) (pos 0)
          >>= check_mount guest_path)
        (options-mount_opts ro)

  abbrev check_mkdir : Text → ℤ → Act H.State (Unit {0})
  check_mkdir guest_path rc = require_zero (mkdir_message guest_path) rc

  -- mkdir(1) exits with 0, and one of the tries mounts.
  pub Mounted : Text → Text → Bool → World H.State → World H.State → Type 0
  Mounted guest_path mount_tag ro w end =
      (w₁ : World H.State) × Gives H fuel version (text "mkdir") (mkdir_words guest_path) w (pos 0)
        w₁
      × Mounts H fuel version 5 0 (mount_words guest_path mount_tag ro) w₁ end

  pub mount_in_guest-inv :
      (guest_path mount_tag : Text) (ro : Bool) (w end : World H.State)
      → mount_in_guest H fuel version guest_path mount_tag ro w ≡ (done tt, end)
      → Mounted guest_path mount_tag ro w end
  unfolding Mounted
  mount_in_guest-inv guest_path mount_tag ro w end e =
      let (rc, w₁, made, e₁) =
        bind-inv (run_setup H fuel version (text "mkdir") (mkdir_words guest_path))
          (λ rc. check_mkdir guest_path rc >>= λ _. mounting guest_path mount_tag ro) w tt end
          (sym (ap (λ a. a w) (mount_in_guest-words guest_path mount_tag ro)) ∙ e) in
      let (u, w₂, zero₁, e₂) =
        bind-inv (check_mkdir guest_path rc) (λ _. mounting guest_path mount_tag ro) w₁ tt end e₁ in
      let (rc', w₃, mounted, e₃) =
        bind-inv (mount_loop H fuel version 5 0 (mount_words guest_path mount_tag ro) (pos 0))
          (check_mount guest_path) w₂ tt end e₂ in
      let (is_zero, same) = require_zero-inv (mkdir_message guest_path) rc w₁ w₂ zero₁ in
      let (is_zero', same') = require_zero-inv (mount_message guest_path) rc' w₃ end e₃ in
      (
        w₁,
        cc (made, is_zero),
        mount_loop-Mounts H fuel version 5 0 _ (pos 0) w₁ end (λ z. absurd (omega (arith, z)))
            (cc (mounted, same, same', is_zero')),
      )

  pub mount_in_guest_of_Mounted :
      (guest_path mount_tag : Text) (ro : Bool) (w end : World H.State)
      → Mounted guest_path mount_tag ro w end
      → mount_in_guest H fuel version guest_path mount_tag ro w ≡ (done tt, end)
  unfolding Mounted Mounts
  mount_in_guest_of_Mounted guest_path mount_tag ro w end (w₁, made, (n, w', lt, b, mounted)) =
      ap (λ a. a w) (mount_in_guest-words guest_path mount_tag ro)
      ∙ bind-done (run_setup H fuel version (text "mkdir") (mkdir_words guest_path))
          (λ rc. check_mkdir guest_path rc >>= λ _. mounting guest_path mount_tag ro) w (pos 0) w₁
          made
      ∙ bind-done (check_mkdir guest_path (pos 0)) (λ _. mounting guest_path mount_tag ro) w₁ tt w₁
          (require_zero-done (mkdir_message guest_path) (pos 0) w₁ refl)
      ∙ bind-done (mount_loop H fuel version 5 0 (mount_words guest_path mount_tag ro) (pos 0))
          (check_mount guest_path) w₁ (pos 0) end
          (mount_loop_of_Mounts H fuel version 5 0 n _ (pos 0) w₁ w' end lt b mounted)
      ∙ require_zero-done (mount_message guest_path) (pos 0) end refl

  -- Mounting in the guest succeeds exactly if mkdir(1) exits with 0, and then one of at most five
  -- tries of mount(1) does, each one before it having exited with 32 and been followed by a pause:
  -- of no time behind the first one, and of a second more behind each further one.
  pub mount_in_guest-Mounted :
      (guest_path mount_tag : Text) (ro : Bool) (w end : World H.State)
      → (mount_in_guest H fuel version guest_path mount_tag ro w ≡ (done tt, end))
        ↔ Mounted guest_path mount_tag ro w end
  mount_in_guest-Mounted guest_path mount_tag ro w end = (
    mount_in_guest-inv guest_path mount_tag ro w end,
    mount_in_guest_of_Mounted guest_path mount_tag ro w end,
  )
