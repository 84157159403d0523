-- ===== src/Main/Program/Clean.antt =====
-- vmtest leaves neither a QEMU process nor an init script behind: `main` of src/main.rs.
use vmtest.Base.{
  ℕ, suc, List, [], ◌∷◌, Option, none, some, Bool, false, Text, Result, ok, err, length, ◌==◌,
  nat_eq, ◌≡◌, ◌≢◌,
}
use vmtest.Base.Integers.{ℤ}
use vmtest.Config.{Target}
use vmtest.Output.{Output}
use vmtest.Host.{Host, World, Act, unfinished, pure}
use vmtest.Host.Leaves.{Leaves, Leaves-pure, Leaves-panics, Leaves-bind, leaves_rules}
use vmtest.Qemu.Args.{Machine}
use vmtest.Qemu.Instance.{CommandContext}
use vmtest.Qemu.New.{Formats}
use vmtest.Qemu.Run.Child.{Child, remains}
use vmtest.Vmtest.Instance.{Vmtest}
use vmtest.Vmtest.RunOne.{run_one}
use vmtest.Vmtest.RunOne.Cleanup.{run_one-has_init}
use vmtest.Vmtest.RunOne.Reaped.{Preparation, run_one-gone}
use vmtest.Ui.Terminal.{Term}
use vmtest.Ui.Program.{channel, received, updates_of, ui_loop, ui_run}
use vmtest.Main.{Args, System, config, show_cmd}
use vmtest.Main.Program.{run_ui, main_with, main}

-- No QEMU runs, but where an inspection of it or a wait for it has failed, and no init script is
-- owned.
pub record IsClean {H : Host} (C : Child H) (w : World H.State) : Type 0 where
  pub gone : remains C w.host ≡ false
  pub no_init : w.has_init ≡ false

module _ {H : Host} (C : Child H) where
  channel-Leaves : Leaves (IsClean C) channel
  unfolding channel pure
  channel-Leaves = record { at = λ w h n. record { gone = h.gone; no_init = h.no_init } }

  received-Leaves : Leaves (IsClean C) received
  unfolding received pure
  received-Leaves = record { at = λ w h n. h }

module _ {H : Host} {C : Child H} (P : Preparation C) (fuel : ℕ) (m : Machine) (fmt : Formats)
    (render : CommandContext → Text) where
  module _ (v : Vmtest) where
    run_one-Leaves : (idx : ℕ) → Leaves (IsClean C) (run_one H fuel m fmt render v idx)
    run_one-Leaves idx = record {
      at = λ w h n. record {
        gone = run_one-gone P fuel m fmt render v idx w h.gone n;
        no_init = run_one-has_init H fuel m fmt render v idx w h.no_init n;
      };
    }

    updates_of-Leaves : (idx : ℕ) → Leaves (IsClean C) (updates_of H fuel m fmt render v idx)
    unfolding updates_of
    updates_of-Leaves idx =
        Leaves-bind _ _ (channel-Leaves C)
          (λ _. Leaves-bind _ _ (run_one-Leaves idx) (λ _. received-Leaves C))

    module _ (T : Term) (arrive : ℕ → List Output → List Output) (show_cmd single_cmd : Bool) where
      abbrev looping : ℕ → ℕ → List Target → T.Screen → Act H.State (ℤ × T.Screen)
      looping = ui_loop H fuel m fmt render v T arrive show_cmd single_cmd

      loop_step :
          (failed idx : ℕ) (t : Target) (ts : List Target) (s : T.Screen)
          → ((failed' : ℕ) (s' : T.Screen) → Leaves (IsClean C) (looping failed' (suc idx) ts s'))
          → Leaves (IsClean C) (looping failed idx (t ∷ ts) s)
      unfolding ui_loop
      loop_step failed idx t ts s again = search (leaves_rules, updates_of-Leaves) depth 8

      loop-Leaves :
          (failed idx : ℕ) (ts : List Target) (s : T.Screen)
          → Leaves (IsClean C) (looping failed idx ts s)
      loop-Leaves failed idx [] s = unfold ui_loop in Leaves-pure _
      loop-Leaves failed idx (t ∷ ts) s =
          loop_step failed idx t ts s (λ failed' s'. loop-Leaves failed' (suc idx) ts s')

  module _ (T : Term) (arrive : ℕ → List Output → List Output) where
    run_ui-Leaves :
        (args : Args) (s : T.Screen) (r : Option (Result Vmtest))
        → Leaves (IsClean C) (run_ui H fuel m fmt render T arrive args s r)
    unfolding run_ui ui_run
    run_ui-Leaves args s none = Leaves-panics
    run_ui-Leaves args s (some (err e)) = Leaves-pure 1
    run_ui-Leaves args s (some (ok v)) =
        Leaves-bind _ _
          (loop-Leaves v T arrive (show_cmd args) (length v.config.target == 1) 0 0 v.config.target
            s)
          (λ x. Leaves-pure _)

    main_with-Leaves :
        (sys : System) (args : Args) (s : T.Screen) (logger : Result (Unit {0}))
        → Leaves (IsClean C) (main_with H fuel m fmt render T arrive sys args s logger)
    unfolding main_with
    main_with-Leaves sys args s (err e) = Leaves-pure 1
    main_with-Leaves sys args s (ok _) = run_ui-Leaves args s (config sys args)

    -- If no QEMU runs and no init script is owned at the start, then where the program has ended,
    -- by an exit code or a panic, no init script is owned, and no QEMU runs unless an inspection of
    -- it or a wait for it has failed: whatever the arguments and targets are, and however the boot,
    -- the setup and the command of each of them end.
    pub main-IsClean :
        (sys : System) (args : Args) (s : T.Screen) (w : World H.State)
        → IsClean C w
        → (main H fuel m fmt render T arrive sys args s w).0 ≢ unfinished
        → IsClean C (main H fuel m fmt render T arrive sys args s w).1
    unfolding main
    main-IsClean sys args s w h n = (main_with-Leaves sys args s _).at w h n
