-- ===== src/Vmtest/Instance/Laws.antt =====
-- What a `Vmtest` that was constructed promises of its targets.
use vmtest.Base.{
  ℕ, List, [], ◌∷◌, ◌++◌, Option, none, some, Text, Error, ok, err, Result-cases, get_elem?, ◌>>=◌,
  suc, zero, ◌<◌, length, text, ◌≡◌, ◌≢◌, refl, ap, ◌∙◌, inl, inr, All, arith,
}
use mathlib.Core.Option
use mathlib.Core.Path.{subst}
use vmtest.Paths.{push, slash}
use vmtest.Config.{Target, Config}
use vmtest.Vmtest.Validate.{validate_config}
use vmtest.Vmtest.Validate.Laws.{IsValid, NonemptyPath, validate_config-IsValid}
use vmtest.Vmtest.Resolve.{resolve_path, resolve_target}
use vmtest.Vmtest.Instance.{Vmtest, new, found_at, setup_target}
use vmtest.Qemu.Args.{Machine}
use vmtest.Qemu.Invocation.{Sockets, qemu_args}
use vmtest.Qemu.Invocation.Order.{qemu_args-ne-none}

append_nonempty : (s t : Text) → t ≢ [] → s ++ t ≢ []
append_nonempty [] t h e = h e
append_nonempty (c ∷ s) t h e = cc

push_nonempty : (base p : Text) → p ≢ [] → push base p ≢ []
unfolding push
push_nonempty base p h =
    let plain = append_nonempty base p h in
    let separated = append_nonempty base (slash ∷ p) (λ e. cc) in ground arith

resolve_path_nonempty : (base p : Text) → p ≢ [] → resolve_path base p ≢ []
unfolding resolve_path
resolve_path_nonempty base p h = let pushed = push_nonempty base p h in ground arith

map-none : (f : Text → Text) (o : Option Text) → Option.map f o ≡ none → o ≡ none
map-none f none e = refl
map-none f (some p) e = absurd cc

map_of_none : (f : Text → Text) (o : Option Text) → o ≡ none → Option.map f o ≡ none
map_of_none f none e = refl
map_of_none f (some p) e = absurd cc

map_nonempty :
    (base : Text) (o : Option Text)
    → NonemptyPath o
    → NonemptyPath (Option.map (resolve_path base) o)
map_nonempty base none h = tt
map_nonempty base (some p) h = resolve_path_nonempty base p h

-- Resolving the paths of a target keeps it valid.
resolve_target-IsValid : (base : Text) (t : Target) → IsValid t → IsValid (resolve_target base t)
unfolding resolve_target
resolve_target-IsValid base t v = record {
  named = v.named;
  image_or_kernel = elim v.image_or_kernel [
    | inl h ↦ inl (λ e. h (map-none _ t.image e))
    | inr h ↦ inr (λ e. h (map-none _ t.kernel e))
  ];
  not_both = elim v.not_both [
    | inl e ↦ inl (map_of_none _ t.image e)
    | inr e ↦ inr (map_of_none _ t.kernel e)
  ];
  uefi_needs_image = λ u e. v.uefi_needs_image u (map-none _ t.image e);
  bios_needs_uefi = λ h. v.bios_needs_uefi (λ e. h (map_of_none _ t.vm.bios e));
  kargs_need_kernel = λ h e. v.kargs_need_kernel h (map-none _ t.kernel e);
  image_path = map_nonempty base t.image v.image_path;
  kernel_path = map_nonempty base t.kernel v.kernel_path;
  has_command = v.has_command;
}

-- An instance keeps the configuration, and all of its targets are valid.
pub new-IsValid :
    (path : Text) (c : Config) (v : Vmtest)
    → new path c ≡ ok v
    → (v ≡ record { base = path; config = c }) × All IsValid c.target
new-IsValid path c v h = elim (Result-cases (validate_config c)) [
  | inl (tt, p) ↦ (cc (h, accepted p), (validate_config-IsValid c).0 p)
  | inr (e, p) ↦ absurd (cc (h, rejected e p))
]
  where
    accepted : validate_config c ≡ ok tt → new path c ≡ ok (record { base = path; config = c })
    accepted p = unfold new in rw p refl

    rejected :
        (e : Error) → validate_config c ≡ err e → new path c ≡ err (text "Invalid config" ∷ e)
    rejected e p = unfold new in rw p refl

lookup : (ts : List Target) (idx : ℕ) → idx < length ts → (t : Target) × (get_elem? ts idx ≡ some t)
lookup [] idx lt = absurd (omega arith)
lookup (t ∷ ts) zero lt = (t, refl)
lookup (t ∷ ts) (suc idx) lt = lookup ts idx (omega arith)

lookup-All :
    (ts : List Target) (idx : ℕ) (t : Target)
    → All IsValid ts
    → get_elem? ts idx ≡ some t
    → IsValid t
lookup-All [] idx t h e = absurd cc
lookup-All (x ∷ ts) zero t (h, hs) e = let same : x ≡ t = cc in subst IsValid same h
lookup-All (x ∷ ts) (suc idx) t (h, hs) e = lookup-All ts idx t hs e

setup_found :
    (v : Vmtest) (idx : ℕ) (t : Target)
    → get_elem? v.config.target idx ≡ some t
    → setup_target v idx ≡ ok (resolve_target v.base t)
unfolding setup_target
setup_found v idx t e = ap (λ o. found_at idx o >>= λ t. ok (resolve_target v.base t)) e

-- Of an instance that was constructed, each target in range is handed to `Qemu::new`, still
-- valid behind the resolution of its paths, and `Qemu::new` has arguments for it: its `panic!`
-- is not reached.
pub setup_target-qemu_args :
    (path : Text) (c : Config) (v : Vmtest) (idx : ℕ)
    → new path c ≡ ok v
    → idx < length c.target
    → (m : Machine) (socks : Sockets) (guest_init : Text)
    → (t : Target) × (setup_target v idx ≡ ok t)
      × IsValid t
      × (qemu_args m socks guest_init v.base t ≢ none)
setup_target-qemu_args path c v idx h lt m socks guest_init =
    let (same, valid) = new-IsValid path c v h in
    let (t, e) = lookup c.target idx lt in
    let ok_t = resolve_target-IsValid v.base t (lookup-All c.target idx t valid e) in
    (
      resolve_target v.base t,
      setup_found v idx t (ap (λ u. get_elem? u.config.target idx) same ∙ e),
      ok_t,
      qemu_args-ne-none m socks guest_init v.base _ ok_t,
    )
