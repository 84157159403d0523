-- ===== src/Ui/Target/Verdict.antt =====
-- What `target_ui` returns for a sequence of updates, and that it returns.
use vmtest.Base.{
  ℕ, ◌+◌, true, false, text, if◌then◌else◌, get_or, ◌≤◌, List, [], ◌∷◌, ◌++◌, Option, none, some,
  Bool, Text, Error, ok, err, length, lines, ◌==◌, ◌≡◌, refl, ◌∙◌, ap, All, Bool-cases, inl, inr,
}
use vmtest.Base.Integers.{ℤ, pos, ℤ_eq, as_i32}
use vmtest.Base.Panics.{◌>>=◌}
use vmtest.Output.{
  Output, boot_start, boot, boot_end, setup_start, setup, setup_end, command_start, command,
  command_end,
}
use vmtest.Ui.Terminal.{Term, Writable}
use vmtest.Ui.Terminal.Written.{without, clear_lines-without}
use vmtest.Ui.Stage.{heading}
use vmtest.Ui.Stage.Total.{
  dropped, drop_stage-dropped, new_stage-dropped, new_stage-first, print_line-total,
  error_out_stage-total,
}
use vmtest.Ui.Target.{
  Progress, start_stage, show_line, show_error, fail_with, expand_if, exit_code_error, step, loop,
  report, start, target_ui,
}

-- The updates that settle the result: a failure settles "not run", an exit code itself.
abbrev pub decides : Output → Option (Option ℤ)
decides (boot_end (err e)) = some none
decides (setup_end (err e)) = some none
decides (command_end (err e)) = some none
decides (command_end (ok retval)) = some (some (as_i32 retval))
decides _ = none

-- The result after one more update.
abbrev pub revise : Option ℤ → Output → Option ℤ
revise rc msg = get_or (decides msg) rc

abbrev pub verdict_from : Option ℤ → List Output → Option ℤ
verdict_from rc [] = rc
verdict_from rc (msg ∷ msgs) = verdict_from (revise rc msg) msgs

-- The result of a sequence of updates: the last one that settles it, and 0 if none does.
abbrev pub verdict : List Output → Option ℤ
verdict = verdict_from (some (pos 0))

-- The update carries at most one line of text.
abbrev pub SingleLine : Output → Type 0
SingleLine (boot s) = length (lines s) ≤ 1
SingleLine (setup s) = length (lines s) ≤ 1
SingleLine (command s) = length (lines s) ≤ 1
SingleLine _ = Unit

module _ (T : Term) (W : Writable T) where
  -- A step succeeds and revises the result.
  abbrev Revises : Bool → Output → Progress T → Type 0
  Revises show_cmd msg p =
      (p' : Progress T) × (step T show_cmd msg p ≡ some p') × (p'.rc ≡ revise p.rc msg)

  show_line-total :
      (line : Text) (p : Progress T)
      → length (lines line) ≤ 1
      → (p' : Progress T) × (show_line T line p ≡ some p') × (p'.rc ≡ p.rc)
  unfolding show_line
  show_line-total line p h =
      let (next, done) = print_line-total W p.stage p.screen line none h in
      (record p { stage = next.0; screen = next.1 }, rw (done, ◌>>=◌), refl)

  show_error-total : (e : Error) (p : Progress T) → (p' : Progress T) × (show_error T e p ≡ some p')
  unfolding show_error
  show_error-total e p =
      let (next, done) = error_out_stage-total W p.stage p.screen e in
      (record p { stage = next.0; screen = next.1 }, rw (done, ◌>>=◌))

  fail_with-total :
      (e : Error) (p : Progress T)
      → (p' : Progress T) × (fail_with T e p ≡ some p') × (p'.rc ≡ none)
  unfolding fail_with
  fail_with-total e p =
      let (next, done) = show_error-total e p in (record next { rc = none }, rw (done, ◌>>=◌), refl)

  pub start_stage-dropped :
      (name : Text) (p : Progress T)
      → start_stage T name p
        ≡ some (record p {
          stage = record { lines = []; expand = false };
          stages = p.stages + 1;
          screen = W.written (heading name 2) (dropped W p.stage p.screen);
        })
  unfolding start_stage
  start_stage-dropped name p = rw (new_stage-dropped W (heading name 2) p.stage p.screen) refl

  abbrev pub fresh : Text → T.Screen → Progress T
  fresh target s = record {
    stage = record { lines = []; expand = false };
    stages = 0;
    rc = some (pos 0);
    screen = W.written (heading target 1) s;
  }

  pub start-written : (target : Text) (s : T.Screen) → start T target s ≡ some (fresh target s)
  unfolding start
  start-written target s = rw (new_stage-first W (heading target 1) s) refl

  -- What stands on the screen behind the result.
  abbrev pub settled_screen : Bool → ℕ → Option ℤ → T.Screen → T.Screen
  settled_screen true stages rc s = s
  settled_screen false stages none s = s
  settled_screen false stages (some rc) s =
      if rc == pos 0
      then W.written (text "PASS") (without W stages s)
      else W.written (text "FAILED") s

  pub report-settled :
      (show_cmd : Bool) (stages : ℕ) (rc : Option ℤ) (s : T.Screen)
      → report T show_cmd stages rc s ≡ some (settled_screen show_cmd stages rc s)
  unfolding report
  report-settled true stages rc s = refl
  report-settled false stages none s = refl
  report-settled false stages (some rc) s = elim (Bool-cases (rc == pos 0)) [
    | inl e ↦ rw (e, clear_lines-without W stages s) (W.write_line-written (text "PASS") _)
    | inr e ↦ rw e (W.write_line-written (text "FAILED") s)
  ]

  step-Revises :
      (show_cmd : Bool) (msg : Output) (p : Progress T) → SingleLine msg → Revises show_cmd msg p
  unfolding step
  step-Revises show_cmd boot_start p h = (_, start_stage-dropped (text "Booting") p, refl)
  step-Revises show_cmd (boot s) p h = show_line-total s p h
  step-Revises show_cmd (boot_end (ok _)) p h = (p, refl, refl)
  step-Revises show_cmd (boot_end (err e)) p h = fail_with-total e p
  step-Revises show_cmd setup_start p h = (_, start_stage-dropped (text "Setting up VM") p, refl)
  step-Revises show_cmd (setup s) p h = show_line-total s p h
  step-Revises show_cmd (setup_end (ok _)) p h = (p, refl, refl)
  step-Revises show_cmd (setup_end (err e)) p h = fail_with-total e p
  step-Revises show_cmd command_start p h =
      (_, start_stage-dropped (text "Running command") p, refl)
  step-Revises show_cmd (command s) p h = show_line-total s p h
  step-Revises show_cmd (command_end (ok retval)) p h = elim (Bool-cases (retval == pos 0)) [
    | inl zero ↦
        (record (expand_if T show_cmd p) { rc = some (as_i32 retval) }, rw (zero, ◌>>=◌), refl)
    | inr nonzero ↦
        let (next, done) = show_error-total (exit_code_error retval) (expand_if T show_cmd p) in
        (record next { rc = some (as_i32 retval) }, rw (nonzero, done, ◌>>=◌), refl)
  ]
  step-Revises show_cmd (command_end (err e)) p h = fail_with-total e (expand_if T show_cmd p)

  loop-verdict_from :
      (show_cmd : Bool) (msgs : List Output) (p : Progress T)
      → All SingleLine msgs
      → (p' : Progress T) × (loop T show_cmd msgs p ≡ some p') × (p'.rc ≡ verdict_from p.rc msgs)
  unfolding loop
  loop-verdict_from show_cmd [] p h = (p, refl, refl)
  loop-verdict_from show_cmd (msg ∷ msgs) p (h, hs) =
      let (next, done, revised) = step-Revises show_cmd msg p h in
      let (last, rest, settled) = loop-verdict_from show_cmd msgs next hs in
      (last, rw (done, ◌>>=◌) rest, settled ∙ ap (λ rc. verdict_from rc msgs) revised)

  -- If no update carries more than one line, and no write to the terminal fails, then `target_ui`
  -- does not panic, and it returns what the last update that settles the result says, and 0 if none
  -- does.
  pub target_ui-verdict :
      (target : Text) (show_cmd : Bool) (msgs : List Output) (s : T.Screen)
      → All SingleLine msgs
      → (s' : T.Screen) × (target_ui T target show_cmd msgs s ≡ some (verdict msgs, s'))
  unfolding target_ui
  target_ui-verdict target show_cmd msgs s h =
      let (last, done, settled) = loop-verdict_from show_cmd msgs (fresh target s) h in
      let left = dropped W last.stage last.screen in
      (
        settled_screen show_cmd last.stages (verdict msgs) left,
        rw
            (
              start-written target s,
              done,
              drop_stage-dropped W last.stage last.screen,
              report-settled show_cmd last.stages last.rc left,
            )
            (ap (λ rc. some (rc, settled_screen show_cmd last.stages rc left)) settled),
      )

-- The update does not settle the result: a start, or a line of output, or a stage that went well.
abbrev pub IsQuiet : Output → Type 0
IsQuiet msg = decides msg ≡ none

verdict_from-quiet :
    (rc : Option ℤ) (msgs : List Output) → All IsQuiet msgs → verdict_from rc msgs ≡ rc
verdict_from-quiet rc [] h = refl
verdict_from-quiet rc (msg ∷ msgs) (h, hs) =
    ap (λ o. verdict_from (get_or o rc) msgs) h ∙ verdict_from-quiet rc msgs hs

verdict_from-append :
    (rc : Option ℤ) (before after : List Output)
    → verdict_from rc (before ++ after) ≡ verdict_from (verdict_from rc before) after
verdict_from-append rc [] after = refl
verdict_from-append rc (msg ∷ before) after = verdict_from-append (revise rc msg) before after

-- Whatever came before: behind an update that settles the result, lines that still arrive do not
-- change it.
pub verdict_settled :
    (before after : List Output) (msg : Output) (settled : Option ℤ)
    → decides msg ≡ some settled
    → All IsQuiet after
    → verdict (before ++ msg ∷ after) ≡ settled
verdict_settled before after msg settled h hs =
    verdict_from-append (some (pos 0)) before (msg ∷ after)
    ∙ ap (λ o. verdict_from (get_or o (verdict before)) after) h
    ∙ verdict_from-quiet settled after hs
