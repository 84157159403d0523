-- ===== src/Main/Program/Exit.antt =====
-- The exit code of the program, and that it returns one.
use vmtest.Base.{
  context, refl, text, ℕ, suc, ◌*◌, ◌%◌, ◌≤◌, ◌<◌, List, Option, none, some, Text, Result, ok, err,
  ◌≡◌, ◌≢◌, ap, ◌∙◌, ◌↔◌, arith, All,
}
use vmtest.Base.Integers.{ℤ, pos}
use vmtest.Config.{Target}
use vmtest.Output.{Output}
use vmtest.Host.{panics, Host, World, Outcome, done, fail, panic, unfinished, continue, ◌>>=◌, pure}
use vmtest.Host.Returns.{Clock, Returns, Returns-pure, Returns-panics, Returns-bind}
use vmtest.Qemu.Args.{Machine}
use vmtest.Qemu.Instance.{CommandContext}
use vmtest.Qemu.New.{Formats}
use vmtest.Guest.Returns.{Processes}
use vmtest.Vmtest.Instance.{Vmtest}
use vmtest.Ui.Terminal.{Term, Writable}
use vmtest.Ui.Run.{Session}
use vmtest.Ui.Run.Count.{Passes, due, due_zero}
use vmtest.Ui.Program.{ui_run}
use vmtest.Ui.Program.Due.{Arrives, sessions, Refines}
use vmtest.Ui.Program.Due.Result.{IsDue, ui_run-Refines}
use vmtest.Ui.Program.Returns.{ui_run-Returns}
use vmtest.Main.{Args, System, init_logging, config, show_cmd, exit_status}
use vmtest.Main.Program.{run_ui, main_with, main}

-- Where the result that is due is at least 0 and less than 256, the exit code is 0 exactly if every
-- target passes.
pub exit_status_zero :
    (l : List Session) (n : ℕ) → due l ≡ pos n → n < 256 → (exit_status (due l) ≡ 0) ↔ All Passes l
unfolding exit_status
exit_status_zero l n e lt =
    let (to, from) = due_zero l in
    (
      λ z.
          let small : n % 256 ≡ 0 = omega (arith, ap exit_status e, z) in
          to (e ∙ ap pos (omega (arith, small, lt))),
      λ passes. ap exit_status (from passes),
    )

module _ (H : Host) (fuel : ℕ) (m : Machine) (fmt : Formats) (render : CommandContext → Text)
    (T : Term) (W : Writable T) (arrive : ℕ → List Output → List Output)
    (arrival : (idx : ℕ) (us : List Output) → Arrives us (arrive idx us)) where
  IsStatus : List Session → ℕ → Type 0
  IsStatus l code = code ≡ exit_status (due l)

  after : World H.State → Outcome (ℤ × T.Screen) → Outcome ℕ
  after w r = (continue r (λ x. pure (exit_status x.0)) w).0

  IsStatus-Refines :
      (v : Vmtest) (ts : List Target) (o : Outcome (List Session)) (r : Outcome (ℤ × T.Screen))
      (w : World H.State)
      → Refines H fuel m fmt render v 0 ts (IsDue H fuel m fmt render v T W arrive arrival) o r
      → Refines H fuel m fmt render v 0 ts IsStatus o (after w r)
  unfolding pure IsStatus after
  IsStatus-Refines v ts (done l) r w (judged, ((rc, s), e, same)) =
      (judged, (exit_status rc, ap (after w) e, ap exit_status same))
  IsStatus-Refines v ts (fail x) r w h = h
  IsStatus-Refines v ts panic r w e = ap (after w) e
  IsStatus-Refines v ts unfinished r w e = ap (after w) e

  -- What becomes of the program, by the result of its logger and of its configuration.
  abbrev pub IsProgram :
      Result (Unit {0})
      → Option (Result Vmtest)
      → World H.State
      → Outcome ℕ × World H.State
      → Type 0
  IsProgram (err e) c w o = o ≡ (done 1, w)
  IsProgram (ok _) none w o = o ≡ (panic, w)
  IsProgram (ok _) (some (err e)) w o = o ≡ (done 1, w)
  IsProgram (ok _) (some (ok v)) w o =
      Refines H fuel m fmt render v 0 v.config.target (λ l code. code ≡ exit_status (due l))
        (sessions H fuel m fmt render v 0 v.config.target w).0 o.0

  run_ui-IsProgram :
      (args : Args) (s : T.Screen) (w : World H.State) (c : Option (Result Vmtest))
      → IsProgram (ok tt) c w (run_ui H fuel m fmt render T arrive args s c w)
  unfolding run_ui ◌>>=◌ IsStatus after pure panics
  run_ui-IsProgram args s w none = refl
  run_ui-IsProgram args s w (some (err e)) = refl
  run_ui-IsProgram args s w (some (ok v)) =
      let shown = ui_run H fuel m fmt render v T arrive (show_cmd args) s w in
      IsStatus-Refines v v.config.target (sessions H fuel m fmt render v 0 v.config.target w).0
        shown.0 shown.1
        (ui_run-Refines H fuel m fmt render v T W arrive arrival (show_cmd args) s w)

  main_with-IsProgram :
      (sys : System) (args : Args) (s : T.Screen) (w : World H.State) (logger : Result (Unit {0}))
      → IsProgram logger
          (config sys args)
          w
          (main_with H fuel m fmt render T arrive sys args s logger w)
  unfolding main_with pure
  main_with-IsProgram sys args s w (err e) = refl
  main_with-IsProgram sys args s w (ok _) = run_ui-IsProgram args s w (config sys args)

  -- If the logger cannot be initialised, or the configuration is refused, then the exit code is 1;
  -- if the making of the configuration panics, then so does the program; and nothing of the host is
  -- touched. Else, where no write to the terminal fails, the program is the sequence of the runs of
  -- its targets, and then the exit code of what is due for them: it panics, or does not return,
  -- only where a run does.
  pub main-IsProgram :
      (sys : System) (args : Args) (s : T.Screen) (w : World H.State)
      → IsProgram
          (context (text "Failed to initialize logging") (init_logging sys))
          (config sys args)
          w
          (main H fuel m fmt render T arrive sys args s w)
  unfolding main
  main-IsProgram sys args s w = main_with-IsProgram sys args s w _

module _ {H : Host} {L : Clock H} (G : Processes L) (fuel : ℕ) (lasts : G.span ≤ fuel * 200)
    (boots : 120 ≤ fuel) (m : Machine) (fmt : Formats) (render : CommandContext → Text) (T : Term)
    (arrive : ℕ → List Output → List Output) where
  run_ui-Returns :
      (args : Args) (s : T.Screen) (r : Option (Result Vmtest))
      → Returns L 0 (run_ui H (suc fuel) m fmt render T arrive args s r)
  unfolding run_ui
  run_ui-Returns args s none = Returns-panics L 0
  run_ui-Returns args s (some (err e)) = Returns-pure L 0 1
  run_ui-Returns args s (some (ok v)) =
      Returns-bind L 0 _ _
        (ui_run-Returns G fuel lasts boots m fmt render v T arrive (show_cmd args) 0 s)
        (λ x. Returns-pure L 0 (exit_status x.0))

  main_with-Returns :
      (sys : System) (args : Args) (s : T.Screen) (logger : Result (Unit {0}))
      → Returns L 0 (main_with H (suc fuel) m fmt render T arrive sys args s logger)
  unfolding main_with
  main_with-Returns sys args s (err e) = Returns-pure L 0 1
  main_with-Returns sys args s (ok _) = run_ui-Returns args s (config sys args)

  -- If the clock does not run backwards, a pause takes the time that was asked for, QEMU exits
  -- where it is waited for, the reading of its stderr ends, QMP answers, and a read from the
  -- agent's stream ends where the stream has a timeout; if the agent answers when it is asked to
  -- run a command or for the status of one, and each process in the guest has exited once `G.span`
  -- milliseconds have passed since its start; and if what the streaming threads send is a finite
  -- list: then the program returns or panics, whatever its arguments, its targets and the updates
  -- are. 121 rounds of fuel are enough for the loops of the boot, and `G.span` / 200 + 1 for those
  -- that wait for a process.
  pub main_returns :
      (sys : System) (args : Args) (s : T.Screen) (w : World H.State)
      → (main H (suc fuel) m fmt render T arrive sys args s w).0 ≢ unfinished
  unfolding main
  main_returns sys args s w = ((main_with-Returns sys args s _).at w (omega arith)).0
