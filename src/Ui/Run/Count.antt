-- ===== src/Ui/Run/Count.antt =====
-- What is due for the sessions: the number of targets that failed, or the one target's result.
use vmtest.Base.{
  ℕ, suc, ◌+◌, List, [], ◌∷◌, Option, some, Bool, true, false, get_or, ◌==◌, nat_eq, if◌then◌else◌,
  ◌≡◌, refl, ap, ◌↔◌, arith, All, Bool-cases, inl, inr,
}
use vmtest.Base.Integers.{ℤ, pos, ℤ_eq, ℤ_beq_iff}
use vmtest.Ui.Target.Verdict.{verdict}
use vmtest.Ui.Run.{Session, ex_unavailable}

-- The target ran its command, and the exit code is 0 as an `i32`.
abbrev pub Passes : Session → Type 0
Passes (name, updates) = verdict updates ≡ some (pos 0)

abbrev pub passed : Session → Bool
passed (name, updates) = get_or (verdict updates) ex_unavailable == pos 0

passed_iff : (target : Session) → (passed target ≡ true) ↔ Passes target
passed_iff (name, updates) = go (verdict updates)
  where
    go : (rc : Option ℤ) → ((get_or rc ex_unavailable == pos 0) ≡ true) ↔ (rc ≡ some (pos 0))
    go rc = ground arith

-- How many of the targets do not pass.
abbrev pub failures : List Session → ℕ
failures [] = 0
failures (target ∷ rest) = (if passed target then 0 else 1) + failures rest

failures-eq-zero : (targets : List Session) → (failures targets ≡ 0) ↔ All Passes targets
failures-eq-zero [] = (λ _. tt, λ _. refl)
failures-eq-zero (target ∷ rest) =
    let (to, from) = failures-eq-zero rest in
    elim (Bool-cases (passed target)) [
      | inl e ↦ (
        λ h.
            let none_left : failures rest ≡ 0 = omega (arith, rw e at h) in
            ((passed_iff target).0 e, to none_left),
        λ h. rw e (omega (arith, from h.1)),
      )
      | inr e ↦ (
        λ h. let one : 1 + failures rest ≡ 0 = rw e at h in absurd (omega arith),
        λ h. absurd (cc (e, (passed_iff target).1 h.0)),
      )
    ]

-- What one target's result becomes: its exit code, or 69 if the command was not run.
abbrev pub exit_code : Session → ℤ
exit_code (name, updates) = get_or (verdict updates) ex_unavailable

-- The result that is due for these targets: of a single target its exit code, of any other
-- number of them how many failed.
abbrev pub due : List Session → ℤ
due (target ∷ []) = exit_code target
due targets = pos (failures targets)

pub due_zero : (targets : List Session) → (due targets ≡ pos 0) ↔ All Passes targets
due_zero [] = (λ _. tt, λ _. refl)
due_zero (target ∷ []) =
    let (to, from) = passed_iff target in
    (
      λ e. (to ((ℤ_beq_iff (exit_code target) (pos 0)).1 e), tt),
      λ h. (ℤ_beq_iff (exit_code target) (pos 0)).0 (from h.0),
    )
due_zero (a ∷ b ∷ rest) =
    let (to, from) = failures-eq-zero (a ∷ b ∷ rest) in
    (λ e. to (ground arith), λ h. ap pos (from h))

pub two_not_one : (n : ℕ) → (suc (suc n) == 1) ≡ false
two_not_one n = ground arith
