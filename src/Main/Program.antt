-- ===== src/Main/Program.antt =====
-- `main` of src/main.rs. The exit code of the process is the result: that of `exit`, and 1 where
-- `main` returns an error. A panic stays one.
pub mod Exit
pub mod Clean
use vmtest.Base.{ℕ, List, Option, none, some, Text, text, Result, ok, err, context}
use vmtest.Output.{Output}
use vmtest.Host.{Host, Act, ◌>>=◌, pure, panics}
use vmtest.Qemu.Args.{Machine}
use vmtest.Qemu.Instance.{CommandContext}
use vmtest.Qemu.New.{Formats}
use vmtest.Vmtest.Instance.{Vmtest}
use vmtest.Ui.Terminal.{Term}
use vmtest.Ui.Program.{ui_run}
use vmtest.Main.{Args, System, init_logging, config, show_cmd, exit_status}

module _ (H : Host) (fuel : ℕ) (m : Machine) (fmt : Formats) (render : CommandContext → Text)
    (T : Term) (arrive : ℕ → List Output → List Output) where
  unfoldable pub run_ui : Args → T.Screen → Option (Result Vmtest) → Act H.State ℕ
  unfolding ui_run show_cmd exit_status
  run_ui args s none = panics
  run_ui args s (some (err e)) = pure 1
  run_ui args s (some (ok v)) = do
    (rc, s') ← ui_run H fuel m fmt render v T arrive (show_cmd args) s
    pure (exit_status rc)

  unfoldable pub main_with : System → Args → T.Screen → Result (Unit {0}) → Act H.State ℕ
  unfolding config run_ui
  main_with sys args s (err e) = pure 1
  main_with sys args s (ok _) = run_ui args s (config sys args)

  unfoldable pub main : System → Args → T.Screen → Act H.State ℕ
  unfolding init_logging main_with
  main sys args s =
      main_with sys args s (context (text "Failed to initialize logging") (init_logging sys))
