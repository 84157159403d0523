-- ===== src/Ui/Target/Clean.antt =====
-- What a target that passes leaves on the screen.
use vmtest.Base.{
  ◌-◌, ◌≤◌, List, [], ◌∷◌, ◌++◌, append_assoc, append-nil, none, some, true, false, Text, text, ok,
  err, length, length-append, lines, take-append, ◌≡◌, refl, ◌∙◌, ap, arith, All,
}
use vmtest.Base.Integers.{pos, ℤ_eq, as_i32}
use vmtest.Base.Panics.{◌>>=◌}
use vmtest.Output.{
  Output, boot_start, boot, boot_end, setup_start, setup, setup_end, command_start, command,
  command_end,
}
use vmtest.Ui.Terminal.{Term, IsTerm, ui_enabled}
use vmtest.Ui.Stage.{heading}
use vmtest.Ui.Stage.Window.{Shows}
use vmtest.Ui.Stage.Shown.{print_line-Shows, rows-dropped}
use vmtest.Ui.Stage.Total.{dropped, drop_stage-dropped}
use vmtest.Ui.Target.Verdict.{start_stage-dropped, start-written, settled_screen, report-settled}
use vmtest.Ui.Target.{Progress, start_stage, show_line, expand_if, step, loop, start, target_ui}

-- An update of a target that passes: no failure, and text of a line at most.
abbrev pub IsClean : Output → Type 0
IsClean (boot s) = length (lines s) ≤ 1
IsClean (setup s) = length (lines s) ≤ 1
IsClean (command s) = length (lines s) ≤ 1
IsClean (boot_end (err e)) = ⊥
IsClean (setup_end (err e)) = ⊥
IsClean (command_end (err e)) = ⊥
IsClean (command_end (ok retval)) = retval ≡ pos 0
IsClean _ = Unit

module _ (T : Term) (L : IsTerm T) (enabled : ui_enabled T ≡ true) where
  -- The screen holds `base`, one heading for each stage that was started, and the window.
  record Tidy (base : List Text) (p : Progress T) : Type 0 where
    headings : List Text
    counted : length headings ≡ p.stages
    collapsed : p.stage.expand ≡ false
    passing : p.rc ≡ some (pos 0)
    shows : Shows T L (base ++ headings) p.stage p.screen

  -- A stage that is not expanded leaves nothing but what stood above its window.
  rows-tidied :
      (base : List Text) (p : Progress T) (t : Tidy base p)
      → L.rows (dropped L.writable p.stage p.screen) ≡ base ++ t.headings
  rows-tidied base p t =
      rw (rows-dropped T L (base ++ t.headings) p.stage p.screen t.shows, enabled, t.collapsed)
        (append-nil _)

  start_stage-Tidy :
      (base : List Text) (name : Text) (p : Progress T)
      → Tidy base p
      → (p' : Progress T) × (start_stage T name p ≡ some p') × Tidy base p'
  start_stage-Tidy base name p t = (
    _,
    start_stage-dropped T L.writable name p,
    record {
      headings = t.headings ++ heading name 2 ∷ [];
      counted = omega (arith, length-append t.headings (heading name 2 ∷ []), t.counted);
      collapsed = refl;
      passing = t.passing;
      shows =
          rw (enabled, append-nil, L.rows-written, rows-tidied base p t)
            (append_assoc base t.headings _);
    },
  )

  show_line-Tidy :
      (base : List Text) (line : Text) (p : Progress T)
      → length (lines line) ≤ 1
      → Tidy base p
      → (p' : Progress T) × (show_line T line p ≡ some p') × Tidy base p'
  unfolding show_line
  show_line-Tidy base line p h t =
      let (next, done, printed) =
        print_line-Shows T L (base ++ t.headings) p.stage p.screen line none h t.shows in
      (
        record p { stage = next.0; screen = next.1 },
        rw (done, ◌>>=◌),
        record {
          headings = t.headings;
          counted = t.counted;
          collapsed = printed.same_expand ∙ t.collapsed;
          passing = t.passing;
          shows = printed.shows;
        },
      )

  step-Tidy :
      (base : List Text) (msg : Output) (p : Progress T)
      → IsClean msg
      → Tidy base p
      → (p' : Progress T) × (step T false msg p ≡ some p') × Tidy base p'
  unfolding step
  step-Tidy base boot_start p h t = start_stage-Tidy base (text "Booting") p t
  step-Tidy base (boot s) p h t = show_line-Tidy base s p h t
  step-Tidy base (boot_end (ok _)) p h t = (p, refl, t)
  step-Tidy base (boot_end (err e)) p h t = absurd h
  step-Tidy base setup_start p h t = start_stage-Tidy base (text "Setting up VM") p t
  step-Tidy base (setup s) p h t = show_line-Tidy base s p h t
  step-Tidy base (setup_end (ok _)) p h t = (p, refl, t)
  step-Tidy base (setup_end (err e)) p h t = absurd h
  step-Tidy base command_start p h t = start_stage-Tidy base (text "Running command") p t
  step-Tidy base (command s) p h t = show_line-Tidy base s p h t
  step-Tidy base (command_end (ok retval)) p h t = (
    record p { rc = some (pos 0) },
    unfold expand_if as_i32 in rw h,
    record {
      headings = t.headings;
      counted = t.counted;
      collapsed = t.collapsed;
      passing = refl;
      shows = t.shows;
    },
  )
  step-Tidy base (command_end (err e)) p h t = absurd h

  loop-Tidy :
      (base : List Text) (msgs : List Output) (p : Progress T)
      → All IsClean msgs
      → Tidy base p
      → (p' : Progress T) × (loop T false msgs p ≡ some p') × Tidy base p'
  unfolding loop
  loop-Tidy base [] p h t = (p, refl, t)
  loop-Tidy base (msg ∷ msgs) p (h, hs) t =
      let (next, done, u) = step-Tidy base msg p h t in
      let (last, rest, v) = loop-Tidy base msgs next hs u in (last, rw (done, ◌>>=◌) rest, v)

  start-Tidy :
      (target : Text) (s : T.Screen)
      → (p : Progress T) × (start T target s ≡ some p) × Tidy (L.rows s ++ heading target 1 ∷ []) p
  start-Tidy target s = (
    _,
    start-written T L.writable target s,
    record {
      headings = [];
      counted = refl;
      collapsed = refl;
      passing = refl;
      shows = rw (enabled, append-nil, append-nil) (L.rows-written (heading target 1) s);
    },
  )

  report-Tidy :
      (base : List Text) (p : Progress T)
      → Tidy base p
      → L.rows (
          settled_screen T L.writable false p.stages
            (some (pos 0))
            (dropped L.writable p.stage p.screen))
        ≡ base ++ text "PASS" ∷ []
  report-Tidy base p t =
      let shorter : length (base ++ t.headings) - p.stages ≡ length base =
        omega (arith, length-append base t.headings, t.counted) in
      rw (enabled, L.rows-written, L.rows-cleared, rows-tidied base p t, shorter, take-append) refl

  -- If the UI is enabled, no write to the terminal fails, the command output is not shown, and every
  -- update is clean, the target passes, and two rows are left of it: its heading, and PASS. All that
  -- was shown meanwhile, the headings of the stages and their windows, is gone, and what stood above
  -- is untouched.
  pub target_ui_clean :
      (target : Text) (msgs : List Output) (s : T.Screen)
      → All IsClean msgs
      → (s' : T.Screen) × (target_ui T target false msgs s ≡ some (some (pos 0), s'))
        × (L.rows s' ≡ L.rows s ++ heading target 1 ∷ text "PASS" ∷ [])
  unfolding target_ui
  target_ui_clean target msgs s h =
      let base = L.rows s ++ heading target 1 ∷ [] in
      let (first, started, u) = start-Tidy target s in
      let (last, done, t) = loop-Tidy base msgs first h u in
      let left = dropped L.writable last.stage last.screen in
      (
        settled_screen T L.writable false last.stages (some (pos 0)) left,
        rw
            (
              started,
              done,
              drop_stage-dropped L.writable last.stage last.screen,
              report-settled T L.writable false last.stages last.rc left,
            )
            (ap (λ rc. some (rc, settled_screen T L.writable false last.stages rc left)) t.passing),
        report-Tidy base last t ∙ rw append_assoc,
      )
