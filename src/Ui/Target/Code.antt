-- ===== src/Ui/Target/Code.antt =====
-- Where a result of `target_ui` comes from: the `CommandEnd` that ends a run.
use vmtest.Base.{
  List, [], ◌∷◌, Option, none, some, ok, err, Option-cases, ◌≡◌, ◌≢◌, refl, ap, ◌∙◌, All, ◌⊎◌, inl,
  inr,
}
use mathlib.Core.Path.{subst}
use vmtest.Base.Integers.{ℤ, pos, as_i32}
use vmtest.Base.Panics.{◌>>=◌}
use vmtest.Output.{
  Output, boot_start, boot, boot_end, setup_start, setup, setup_end, command_start, command,
  command_end,
}
use vmtest.Output.Order.{
  Phase, idle, booting, booted, setting_up, ready, running, finished, advance, follow,
}
use vmtest.Ui.Target.Verdict.{revise, verdict, verdict_from}

-- Of an exit code, the property holds.
abbrev pub Codes : (ℤ → Type 0) → Output → Type 0
Codes P (command_end (ok rc)) = P rc
Codes P (command_end (err e)) = Unit
Codes P boot_start = Unit
Codes P (boot line) = Unit
Codes P (boot_end r) = Unit
Codes P setup_start = Unit
Codes P (setup line) = Unit
Codes P (setup_end r) = Unit
Codes P command_start = Unit
Codes P (command line) = Unit

-- Only the end of the command finishes a run.
abbrev Step : Phase → Output → Type 0
Step r msg = (r ≢ finished) ⊎ ((r ≡ finished) × ((code : ℤ) × (msg ≡ command_end (ok code))))

finishing : (p r : Phase) (msg : Output) → advance p msg ≡ some r → Step r msg
finishing idle r boot_start e = inl (λ f. cc)
finishing idle r (boot_end (err x)) e = inl (λ f. cc)
finishing booting r (boot s) e = inl (λ f. cc)
finishing booting r (boot_end (ok _)) e = inl (λ f. cc)
finishing booting r (boot_end (err x)) e = inl (λ f. cc)
finishing booted r setup_start e = inl (λ f. cc)
finishing setting_up r (setup s) e = inl (λ f. cc)
finishing setting_up r (setup_end (ok _)) e = inl (λ f. cc)
finishing setting_up r (setup_end (err x)) e = inl (λ f. cc)
finishing ready r command_start e = inl (λ f. cc)
finishing running r (command s) e = inl (λ f. cc)
finishing running r (command_end (ok code)) e = inr (cc, (code, refl))
finishing running r (command_end (err x)) e = inl (λ f. cc)
finishing p r msg e = absurd cc

-- A finished run sends nothing more.
finished_last : (msg : Output) → advance finished msg ≡ none
finished_last boot_start = refl
finished_last _ = refl

finished_ends : (msgs : List Output) → follow finished msgs ≡ some finished → msgs ≡ []
finished_ends [] e = refl
finished_ends (msg ∷ msgs) e =
    absurd (cc (e, ap (λ o. o >>= λ r. follow r msgs) (finished_last msg)))

module _ (P : ℤ → Type 0) where
  -- The result is an exit code that has the property, as an `i32`.
  abbrev pub IsCode : Option ℤ → Type 0
  IsCode rc = (code : ℤ) × P code × (rc ≡ some (as_i32 code))

  follow-IsCode :
      (p : Phase) (msgs : List Output) (rc : Option ℤ)
      → follow p msgs ≡ some finished
      → p ≢ finished
      → All (Codes P) msgs
      → IsCode (verdict_from rc msgs)
  follow-IsCode p [] rc e ne h = absurd (ne cc)
  follow-IsCode p (msg ∷ msgs) rc e ne (h, hs) = elim (Option-cases (advance p msg)) [
    | inl n ↦ absurd (cc (e, ap (λ o. o >>= λ r. follow r msgs) n))
    | inr (r, s) ↦
        let rest : follow r msgs ≡ some finished = cc (e, s) in
        elim (finishing p r msg s) [
          | inl more ↦ follow-IsCode r msgs (revise rc msg) rest more hs
          | inr (last, (code, same)) ↦
              let ended =
                finished_ends msgs (subst (λ p. follow p msgs ≡ some finished) last rest) in
              (
                code,
                subst (Codes P) same h,
                ap (λ us. verdict_from (revise rc msg) us) ended ∙ ap (revise rc) same,
              )
        ]
  ]

  -- The result of updates that follow the state machine to the end of the command.
  pub verdict-IsCode :
      (msgs : List Output)
      → follow idle msgs ≡ some finished
      → All (Codes P) msgs
      → IsCode (verdict msgs)
  verdict-IsCode msgs e h = follow-IsCode idle msgs (some (pos 0)) e (λ f. cc) h
