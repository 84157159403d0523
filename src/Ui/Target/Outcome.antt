-- ===== src/Ui/Target/Outcome.antt =====
-- What the result of a target says of the phase in which its updates end.
use vmtest.Base.{
  List, [], ◌∷◌, Option, none, some, ok, err, get_or, Option-cases, ◌≡◌, refl, ap, ◌∙◌, All, inl,
  inr,
}
use mathlib.Core.Path.{subst}
use vmtest.Base.Integers.{ℤ, pos, as_i32}
use vmtest.Base.Panics.{◌>>=◌}
use vmtest.Output.{
  Output, boot_start, boot, boot_end, setup_start, setup, setup_end, command_start, command,
  command_end,
}
use vmtest.Output.Order.{
  Phase, idle, booting, booted, setting_up, ready, running, finished, failed, advance, follow,
}
use vmtest.Output.Interleave.{Interleaves, nobody, left, right}
use vmtest.Ui.Target.Verdict.{revise, verdict, verdict_from, IsQuiet}

-- A failure is reported as a command that was not run, the end of a command as its exit code, and
-- anything else as 0.
abbrev pub Reported : Phase → Option ℤ → Type 0
Reported failed rc = rc ≡ none
Reported finished rc = (code : ℤ) × (rc ≡ some (as_i32 code))
Reported _ rc = rc ≡ some (pos 0)

reached : {p q : Phase} (rc : Option ℤ) → some p ≡ some q → Reported p rc → Reported q rc
reached {p} {q} rc e h = let same : p ≡ q = cc in subst (λ x. Reported x rc) same h

step-Reported :
    (p q : Phase) (msg : Output) (rc : Option ℤ)
    → advance p msg ≡ some q
    → Reported p rc
    → Reported q (revise rc msg)
step-Reported idle q boot_start rc e h = reached rc e h
step-Reported idle q (boot_end (err x)) rc e h = reached none e refl
step-Reported booting q (boot s) rc e h = reached rc e h
step-Reported booting q (boot_end (ok _)) rc e h = reached rc e h
step-Reported booting q (boot_end (err x)) rc e h = reached none e refl
step-Reported booted q setup_start rc e h = reached rc e h
step-Reported setting_up q (setup s) rc e h = reached rc e h
step-Reported setting_up q (setup_end (ok _)) rc e h = reached rc e h
step-Reported setting_up q (setup_end (err x)) rc e h = reached none e refl
step-Reported ready q command_start rc e h = reached rc e h
step-Reported running q (command s) rc e h = reached rc e h
step-Reported running q (command_end (ok code)) rc e h = reached (some (as_i32 code)) e (code, refl)
step-Reported running q (command_end (err x)) rc e h = reached none e refl
step-Reported p q msg rc e h = absurd cc

follow-Reported :
    (p q : Phase) (msgs : List Output) (rc : Option ℤ)
    → follow p msgs ≡ some q
    → Reported p rc
    → Reported q (verdict_from rc msgs)
follow-Reported p q [] rc e h = reached rc e h
follow-Reported p q (msg ∷ msgs) rc e h = elim (Option-cases (advance p msg)) [
  | inl n ↦ absurd (cc (e, ap (λ o. o >>= λ r. follow r msgs) n))
  | inr (r, s) ↦
      let rest : follow r msgs ≡ some q = cc (e, s) in
      follow-Reported r q msgs (revise rc msg) rest (step-Reported p r msg rc s h)
]

-- The result of updates that follow the state machine to the phase `q`.
pub verdict-Reported :
    (q : Phase) (msgs : List Output) → follow idle msgs ≡ some q → Reported q (verdict msgs)
verdict-Reported q msgs e = follow-Reported idle q msgs (some (pos 0)) e refl

-- Lines that other threads put in between do not change the result.
pub verdict_from-Interleaves :
    {xs ys zs : List Output} (rc : Option ℤ)
    → Interleaves xs ys zs
    → All IsQuiet ys
    → verdict_from rc zs ≡ verdict_from rc xs
verdict_from-Interleaves rc nobody h = refl
verdict_from-Interleaves rc (left {x} i) h = verdict_from-Interleaves (revise rc x) i h
verdict_from-Interleaves rc (right {y} {zs} i) (h, hs) =
    ap (λ o. verdict_from (get_or o rc) zs) h ∙ verdict_from-Interleaves rc i hs
