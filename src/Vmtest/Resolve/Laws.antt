-- ===== src/Vmtest/Resolve/Laws.antt =====
-- Behind `setup_qemu`, every path of a target that vmtest looks up on the host is absolute.
use vmtest.Base.{
  List, [], ◌∷◌, ◌++◌, map, Option, none, some, Bool, true, false, not, Text, nat_eq, if◌then◌else◌,
  ◌≡◌, refl, ap, All, Bool-cases, inl, inr,
}
use mathlib.Core.Option
use vmtest.Paths.{is_absolute, push, slash}
use vmtest.Config.{Mount, Target}
use vmtest.Vmtest.Resolve.{resolve_path, resolve_mount, resolve_target}

abbrev pub IsAbsolute : Text → Type 0
IsAbsolute p = is_absolute p ≡ true

abbrev pub IsAbsoluteMount : Text × Mount → Type 0
IsAbsoluteMount (guest, m) = IsAbsolute m.host_path

abbrev pub OptionAll : Option Text → Type 0
OptionAll none = Unit
OptionAll (some p) = IsAbsolute p

-- The host's paths of a target are absolute.
pub record HasAbsolutePaths (t : Target) : Type 0 where
  pub image : OptionAll t.image
  pub kernel : OptionAll t.kernel
  pub rootfs : IsAbsolute t.rootfs
  pub bios : OptionAll t.vm.bios
  pub mounts : All IsAbsoluteMount t.vm.mounts

append-IsAbsolute : (base s : Text) → IsAbsolute base → IsAbsolute (base ++ s)
unfolding is_absolute
append-IsAbsolute [] s h = cc
append-IsAbsolute (c ∷ base) s h = h

resolve_path_of_IsAbsolute : (base p : Text) → IsAbsolute p → resolve_path base p ≡ p
unfolding resolve_path
resolve_path_of_IsAbsolute base p h = rw h refl

resolve_path_relative : (base p : Text) → is_absolute p ≡ false → resolve_path base p ≡ push base p
unfolding resolve_path
resolve_path_relative base p e = ap (λ b. if not b then push base p else p) e

if-IsAbsolute :
    (b : Bool) (p r : Text) → IsAbsolute p → IsAbsolute r → IsAbsolute (if b then p else r)
if-IsAbsolute true p r h k = h
if-IsAbsolute false p r h k = k

push-IsAbsolute : (base p : Text) → IsAbsolute base → IsAbsolute (push base p)
unfolding push
push-IsAbsolute base p h = elim (Bool-cases (is_absolute p)) [
  | inl e ↦ rw e e
  | inr e ↦ rw e (
      if-IsAbsolute _ (base ++ p) (base ++ slash ∷ p) (append-IsAbsolute base p h)
        (append-IsAbsolute base (slash ∷ p) h))
]

resolve_path-IsAbsolute : (base p : Text) → IsAbsolute base → IsAbsolute (resolve_path base p)
resolve_path-IsAbsolute base p h = elim (Bool-cases (is_absolute p)) [
  | inl e ↦ rw (resolve_path_of_IsAbsolute base p e) e
  | inr e ↦ rw (resolve_path_relative base p e) (push-IsAbsolute base p h)
]

option-IsAbsolute :
    (base : Text) (o : Option Text) → IsAbsolute base → OptionAll (Option.map (resolve_path base) o)
option-IsAbsolute base none h = tt
option-IsAbsolute base (some p) h = resolve_path-IsAbsolute base p h

mounts-IsAbsolute :
    (base : Text) (ms : List (Text × Mount))
    → IsAbsolute base
    → All IsAbsoluteMount (map (resolve_mount base) ms)
unfolding resolve_mount
mounts-IsAbsolute base [] h = tt
mounts-IsAbsolute base ((guest, m) ∷ ms) h =
    (resolve_path-IsAbsolute base m.host_path h, mounts-IsAbsolute base ms h)

resolve_target-HasAbsolutePaths :
    (base : Text) (t : Target) → IsAbsolute base → HasAbsolutePaths (resolve_target base t)
unfolding resolve_target
resolve_target-HasAbsolutePaths base t h = record {
  image = option-IsAbsolute base t.image h;
  kernel = option-IsAbsolute base t.kernel h;
  rootfs = resolve_path-IsAbsolute base t.rootfs h;
  bios = option-IsAbsolute base t.vm.bios h;
  mounts = mounts-IsAbsolute base t.vm.mounts h;
}

option_same : (base : Text) (o : Option Text) → OptionAll o → Option.map (resolve_path base) o ≡ o
option_same base none h = refl
option_same base (some p) h = ap some (resolve_path_of_IsAbsolute base p h)

mounts_same :
    (base : Text) (ms : List (Text × Mount))
    → All IsAbsoluteMount ms
    → map (resolve_mount base) ms ≡ ms
unfolding resolve_mount
mounts_same base [] h = refl
mounts_same base ((guest, m) ∷ ms) (h, hs) =
    rw (resolve_path_of_IsAbsolute base m.host_path h, mounts_same base ms hs) refl

resolve_target_of_HasAbsolutePaths :
    (base : Text) (t : Target) → HasAbsolutePaths t → resolve_target base t ≡ t
unfolding resolve_target
resolve_target_of_HasAbsolutePaths base t h =
    rw
      (
        option_same base t.image h.image,
        option_same base t.kernel h.kernel,
        resolve_path_of_IsAbsolute base t.rootfs h.rootfs,
        option_same base t.vm.bios h.bios,
        mounts_same base t.vm.mounts h.mounts,
      )
      refl

-- If the base path is absolute, then so is every path that is resolved against it, and resolving
-- the target again, against whatever base path, changes nothing.
pub resolve_target_twice :
    (base other : Text) (t : Target)
    → IsAbsolute base
    → HasAbsolutePaths (resolve_target base t)
      × (resolve_target other (resolve_target base t) ≡ resolve_target base t)
resolve_target_twice base other t h =
    let absolute = resolve_target-HasAbsolutePaths base t h in
    (absolute, resolve_target_of_HasAbsolutePaths other (resolve_target base t) absolute)
