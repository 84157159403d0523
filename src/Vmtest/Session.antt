-- ===== src/Vmtest/Session.antt =====
-- A whole session: what the user interface makes of the run of a target, whatever the threads
-- that stream its output read, and however their updates arrive.
use vmtest.Base.{ℕ, List, [], some, Bool, Text, ◌≡◌, sym, ap, ◌∙◌, All, All-imp, ◌++◌}
use mathlib.Core.Path.{subst}
use vmtest.Base.Integers.{pos}
use vmtest.Output.{Output}
use vmtest.Output.Order.{Phase, idle, follow}
use vmtest.Output.Interleave.{Interleaves, All-Interleaves}
use vmtest.Host.{Host, World}
use vmtest.Host.Moves.{Ends}
use vmtest.Qemu.Args.{Machine}
use vmtest.Qemu.Instance.{CommandContext}
use vmtest.Qemu.New.{Formats}
use vmtest.Qemu.Run.Protocol.{Never}
use vmtest.Guest.Streams.{boot_updates, command_updates}
use vmtest.Guest.Streams.Lines.{IsLine, boot_updates-IsLine, command_updates-IsLine}
use vmtest.Ui.Terminal.{Term, Writable}
use vmtest.Ui.Target.{target_ui}
use vmtest.Ui.Target.Verdict.{SingleLine, IsQuiet, verdict, target_ui-verdict}
use vmtest.Ui.Target.Outcome.{Reported, verdict-Reported, verdict_from-Interleaves}
use vmtest.Vmtest.Instance.{Vmtest}
use vmtest.Vmtest.RunOne.{run_one}
use vmtest.Vmtest.RunOne.Protocol.{ClosedOne, run_one-follow}
use vmtest.Vmtest.RunOne.Lines.{run_one-SendsOnly}

module _ (H : Host) (fuel : ℕ) (m : Machine) (fmt : Formats) (render : CommandContext → Text)
    (v : Vmtest) (T : Term) (W : Writable T) where
  sent : ℕ → World H.State → List Output
  sent idx w = (run_one H fuel m fmt render v idx w).1.sent

  sent-SingleLine : (idx : ℕ) (w : World H.State) → w.sent ≡ [] → All SingleLine (sent idx w)
  unfolding sent
  sent-SingleLine idx w e =
      let s = (run_one-SendsOnly H fuel m fmt render v idx).at w in
      subst (All SingleLine) (sym (s.added ∙ ap (λ us. us ++ s.new) e)) s.allowed

  -- The updates of `run_one` on an empty channel may arrive in any interleaving with what the two
  -- threads send that stream the output of QEMU and of the command, whatever these read. Then,
  -- where no write to the terminal fails, `target_ui` does not panic, and returns the result that
  -- the updates of `run_one` alone settle. If `run_one` returns, then these updates follow the
  -- state machine to a phase that ends a run, and the result is the one that this phase reports:
  -- "not run" where a stage failed, the exit code as an `i32` where the command ended, and 0 where
  -- the target asks for a shell and its setup went well; and `run_one` returns no error.
  pub run_one-target_ui :
      (idx : ℕ) (w : World H.State) (boot_output command_output : Text) (lines zs : List Output)
      (name : Text) (show_cmd : Bool) (s : T.Screen)
      → w.sent ≡ []
      → Interleaves (boot_updates boot_output) (command_updates command_output) lines
      → Interleaves (run_one H fuel m fmt render v idx w).1.sent lines zs
      → (s' : T.Screen) × (target_ui T name show_cmd zs s
          ≡ some (verdict (run_one H fuel m fmt render v idx w).1.sent, s'))
        × ((p : Phase) × (follow idle (run_one H fuel m fmt render v idx w).1.sent ≡ some p)
            × Reported p (verdict (run_one H fuel m fmt render v idx w).1.sent)
            × Ends (λ _. ClosedOne v idx) Never (run_one H fuel m fmt render v idx w).0 p)
  unfolding sent
  run_one-target_ui idx w boot_output command_output lines zs name show_cmd s e i j =
      let streamed : All IsLine lines =
        All-Interleaves IsLine i (boot_updates-IsLine boot_output)
          (command_updates-IsLine command_output) in
      let single : All SingleLine zs =
        All-Interleaves SingleLine j (sent-SingleLine idx w e)
          (All-imp IsLine SingleLine (λ u h. h.0) lines streamed) in
      let quiet : All IsQuiet lines = All-imp IsLine IsQuiet (λ u h. h.1) lines streamed in
      let (s', shown) = target_ui-verdict T W name show_cmd zs s single in
      let (p, followed, ends) = run_one-follow H fuel m fmt render v idx w e in
      (
        s',
        shown ∙ ap (λ rc. some (rc, s')) (verdict_from-Interleaves (some (pos 0)) j quiet),
        (p, followed, verdict-Reported p (sent idx w) followed, ends),
      )
