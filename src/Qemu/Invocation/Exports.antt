-- ===== src/Qemu/Invocation/Exports.antt =====
-- What the guest mounts is what QEMU exports.
use vmtest.Base.{
  List, [], ◌∷◌, ◌++◌, append_assoc, append-nil, Bool, true, false, text, show, Option, none, some,
  not, Text, All, ◌≡◌, refl, sym, ap, ◌∙◌,
}
use mathlib.Core.Path.{subst}
use vmtest.Config.{Mount, Target, VmConfig}
use vmtest.Qemu.Args.{
  Machine, mount_name, mount_args, plan9_fs_args, vmconfig_args, shared_9p_fs_mount_tag,
}
use vmtest.Qemu.Invocation.{Sockets, front_args, root_args, back_args, qemu_args}
use vmtest.Guest.Mount.{guest_mount_name}
use vmtest.Guest.Mount.Setup.{Request, shared_request, added_request}

-- The directory of an empty path is the current one.
abbrev directory : Text → Text
directory [] = text "."
directory (c ∷ cs) = c ∷ cs

abbrev reading_only : Bool → Text
reading_only true = text ",readonly=on"
reading_only false = []

-- The two words by which QEMU exports a directory by 9P.
abbrev pub export_words : Text → Text → Text → Bool → List Text
export_words host id tag ro =
    text "-virtfs"
    ∷ ((text "local,id="
          ++ id
          ++ text ",path="
          ++ directory host
          ++ text ",mount_tag="
          ++ tag
          ++ text ",security_model=none,multidevs=remap")
        ++ reading_only ro)
    ∷ []

export-plan9_fs_args :
    (host id tag : Text) (ro : Bool) → plan9_fs_args host id tag ro ≡ export_words host id tag ro
unfolding plan9_fs_args
export-plan9_fs_args [] id tag true = refl
export-plan9_fs_args [] id tag false = rw append-nil refl
export-plan9_fs_args (c ∷ cs) id tag true = refl
export-plan9_fs_args (c ∷ cs) id tag false = rw append-nil refl

-- The arguments export the directory of the host under the tag of the request, and for reading
-- only exactly if the request is.
pub Exported : List Text → Text → Request → Type 0
Exported args host r =
    (id : Text) × (before after : List Text) × (args
      ≡ before ++ (export_words host id r.tag r.ro ++ after))

-- The mounts of a configuration.
pub AllExported : Machine → List Text → List (Text × Mount) → Type 0
AllExported m args mounts = All (λ e. Exported args e.1.host_path (added_request m e)) mounts

mount_args-cons :
    (m : Machine) (guest : Text) (mount : Mount) (mounts : List (Text × Mount))
    → mount_args m ((guest, mount) ∷ mounts)
      ≡ export_words mount.host_path
          (mount_name m mount)
          (guest_mount_name m mount)
          (not mount.writable)
        ++ mount_args m mounts
unfolding mount_args mount_name guest_mount_name
mount_args-cons m guest mount mounts =
    ap (λ l. l ++ mount_args m mounts)
      (export-plan9_fs_args mount.host_path (mount_name m mount) (mount_name m mount)
        (not mount.writable))

mount_args-AllExported :
    (m : Machine) (front rest : List Text) (mounts : List (Text × Mount))
    → AllExported m (front ++ (mount_args m mounts ++ rest)) mounts
unfolding AllExported Exported
mount_args-AllExported m front rest [] = tt
mount_args-AllExported m front rest ((guest, mount) ∷ mounts) =
    let name = mount_name m mount in
    let export =
      export_words mount.host_path name (guest_mount_name m mount) (not mount.writable) in
    let others = mount_args m mounts ++ rest in
    let split : mount_args m ((guest, mount) ∷ mounts) ++ rest ≡ export ++ others =
      ap (λ l. l ++ rest) (mount_args-cons m guest mount mounts)
      ∙ append_assoc export (mount_args m mounts) rest in
    (
      (name, front, others, ap (λ l. front ++ l) split),
      subst (λ l. AllExported m l mounts)
          (append_assoc front export others ∙ ap (λ l. front ++ l) (sym split))
          (mount_args-AllExported m (front ++ export) rest mounts),
    )

-- The arguments up to the mounts of the configuration.
abbrev machine_words : VmConfig → List Text
machine_words vm = text "-smp" ∷ show vm.num_cpus ∷ text "-m" ∷ vm.memory ∷ []

abbrev shared_args : Text → List Text
shared_args host_shared =
    export_words host_shared (text "shared") shared_9p_fs_mount_tag shared_request.ro

back_args-split :
    (m : Machine) (host_shared : Text) (t : Target)
    → back_args m host_shared t
      ≡ shared_args host_shared
        ++ (machine_words t.vm ++ (mount_args m t.vm.mounts ++ t.vm.extra_args))
unfolding back_args vmconfig_args
back_args-split m host_shared t =
    ap (λ l. l ++ (machine_words t.vm ++ (mount_args m t.vm.mounts ++ t.vm.extra_args)))
      (export-plan9_fs_args host_shared (text "shared") shared_9p_fs_mount_tag false)

abbrev pub Exports : Machine → List Text → Text → List (Text × Mount) → Type 0
Exports m args host_shared mounts =
    Exported args host_shared shared_request × AllExported m args mounts

back_args-Exports :
    (m : Machine) (front : List Text) (host_shared : Text) (t : Target)
    → Exports m (front ++ back_args m host_shared t) host_shared t.vm.mounts
unfolding Exported
back_args-Exports m front host_shared t =
    let shared = shared_args host_shared in
    let words = machine_words t.vm in
    let rest = mount_args m t.vm.mounts ++ t.vm.extra_args in
    (
      (text "shared", front, words ++ rest, ap (λ l. front ++ l) (back_args-split m host_shared t)),
      subst (λ l. AllExported m l t.vm.mounts)
          (append_assoc (front ++ shared) words rest
            ∙ append_assoc front shared (words ++ rest)
            ∙ ap (λ l. front ++ l) (sym (back_args-split m host_shared t)))
          (mount_args-AllExported m ((front ++ shared) ++ words) t.vm.extra_args t.vm.mounts),
    )

-- QEMU's arguments export the shared directory, and each mount of the configuration.
pub qemu_args-Exports :
    (m : Machine) (socks : Sockets) (guest_init host_shared : Text) (t : Target) (args : List Text)
    → qemu_args m socks guest_init host_shared t ≡ some args
    → Exports m args host_shared t.vm.mounts
unfolding qemu_args
qemu_args-Exports m socks guest_init host_shared t args e =
    through (root_args m guest_init t t.image t.kernel) e
  where
    through :
        (root : Option (List Text))
        → elim root as (λ _. Option (List Text)) [
          | none ↦ none
          | some words ↦ some (front_args m socks t ++ (words ++ back_args m host_shared t))
        ]
          ≡ some args
        → Exports m args host_shared t.vm.mounts
    through none h = absurd (cc h)
    through (some words) h =
        subst (λ l. Exports m l host_shared t.vm.mounts)
          (append_assoc (front_args m socks t) words (back_args m host_shared t) ∙ cc h)
          (back_args-Exports m (front_args m socks t ++ words) host_shared t)
