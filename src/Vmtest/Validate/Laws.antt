-- ===== src/Vmtest/Validate/Laws.antt =====
-- What `validate_config` accepts, and which target an error is about.
use vmtest.Base.{
  suc, ap, ◌∙◌, Result-cases, ℕ, ◌+◌, List, [], ◌∷◌, ◌++◌, Option, none, some, true, Text, length,
  Error, ok, err, ◌≡◌, refl, ◌≢◌, ◌↔◌, ◌⊎◌, inl, inr, arith, All,
}
use vmtest.Config.{Target, Config}
use vmtest.Vmtest.Validate.{check_target, validate_from, validate_config}

-- A path that is given is not empty.
abbrev pub NonemptyPath : Option Text → Type 0
NonemptyPath none = Unit
NonemptyPath (some path) = path ≢ []

-- The rules for one target: the name and the command are not empty; there is an image or a
-- kernel, not both, and its path is not empty; uefi is set only with an image, firmware of one's
-- own only with uefi, and arguments of the kernel only with a kernel.
pub record IsValid (t : Target) : Type 0 where
  pub named : t.name ≢ []
  pub image_or_kernel : (t.image ≢ none) ⊎ (t.kernel ≢ none)
  pub not_both : (t.image ≡ none) ⊎ (t.kernel ≡ none)
  pub uefi_needs_image : t.uefi ≡ true → t.image ≢ none
  pub bios_needs_uefi : t.vm.bios ≢ none → t.uefi ≡ true
  pub kargs_need_kernel : t.kernel_args ≢ none → t.kernel ≢ none
  pub image_path : NonemptyPath t.image
  pub kernel_path : NonemptyPath t.kernel
  pub has_command : t.command ≢ []

pub check_target-IsValid : (idx : ℕ) (t : Target) → check_target idx t ≡ ok tt → IsValid t
unfolding check_target
check_target-IsValid idx t h = ground arith

pub check_target_of_IsValid : (idx : ℕ) (t : Target) → IsValid t → check_target idx t ≡ ok tt
unfolding check_target
check_target_of_IsValid idx t v = ground arith

validate_from-IsValid : (idx : ℕ) (ts : List Target) → validate_from idx ts ≡ ok tt → All IsValid ts
unfolding validate_from
validate_from-IsValid idx [] h = tt
validate_from-IsValid idx (t ∷ ts) h =
    let first : check_target idx t ≡ ok tt = ground arith in
    (check_target-IsValid idx t first, validate_from-IsValid (idx + 1) ts (rw first at h))

validate_from_of_IsValid :
    (idx : ℕ) (ts : List Target) → All IsValid ts → validate_from idx ts ≡ ok tt
unfolding validate_from
validate_from_of_IsValid idx [] v = refl
validate_from_of_IsValid idx (t ∷ ts) (v, vs) =
    rw (check_target_of_IsValid idx t v) (validate_from_of_IsValid (idx + 1) ts vs)

-- A configuration is accepted exactly if, of every target, the name and the command are not
-- empty, there is an image or a kernel and not both, its path is not empty, uefi is set only with
-- an image, bios only with uefi, and arguments of the kernel are given only with a kernel.
pub validate_config-IsValid : (c : Config) → (validate_config c ≡ ok tt) ↔ All IsValid c.target
unfolding validate_config
validate_config-IsValid c = (validate_from-IsValid 0 c.target, validate_from_of_IsValid 0 c.target)

-- A target at which the check stops with the error `e`, behind targets that pass it.
pub record FirstFailure (ts : List Target) (start : ℕ) (e : Error) : Type 0 where
  pub before : List Target
  pub failing : Target
  pub after : List Target
  pub split : ts ≡ before ++ failing ∷ after
  pub before_valid : All IsValid before
  pub invalid : ¬ IsValid failing
  pub reported : check_target (start + length before) failing ≡ err e

err→invalid : (idx : ℕ) (t : Target) {e : Error} → check_target idx t ≡ err e → ¬ IsValid t
err→invalid idx t h v = cc (check_target_of_IsValid idx t v)

cons-FirstFailure :
    {idx : ℕ} {t : Target} {ts : List Target} {e : Error}
    → IsValid t
    → FirstFailure ts (idx + 1) e
    → FirstFailure (t ∷ ts) idx e
cons-FirstFailure {idx} {t} {ts} {e} v f = record {
  before = t ∷ f.before;
  failing = f.failing;
  after = f.after;
  split = ap (λ us. t ∷ us) f.split;
  before_valid = (v, f.before_valid);
  invalid = f.invalid;
  reported =
      let n : idx + 1 + length f.before ≡ idx + suc (length f.before) = omega arith in
      rw n at f.reported;
}

validate_from-err :
    (idx : ℕ) (ts : List Target) (e : Error) → validate_from idx ts ≡ err e → FirstFailure ts idx e
unfolding validate_from
validate_from-err idx [] e h = cc
validate_from-err idx (t ∷ ts) e h = elim (Result-cases (check_target idx t)) [
  | inl (tt, p) ↦
      cons-FirstFailure (check_target-IsValid idx t p)
        (validate_from-err (idx + 1) ts e (rw p at h))
  | inr (e', p) ↦
      let same : check_target idx t ≡ err e = p ∙ (rw p at h) in
      let here : idx + 0 ≡ idx = omega arith in
      record {
        before = [];
        failing = t;
        after = ts;
        split = refl;
        before_valid = tt;
        invalid = err→invalid idx t p;
        reported = rw here same;
      }
]

-- An error is the error of the first target that breaks a rule, checked at its own index; all
-- targets before it are valid.
pub validate_config-err :
    (c : Config) (e : Error) → validate_config c ≡ err e → FirstFailure c.target 0 e
unfolding validate_config
validate_config-err c e h = validate_from-err 0 c.target e h
