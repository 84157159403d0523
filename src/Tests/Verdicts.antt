-- ===== src/Tests/Verdicts.antt =====
-- A target on the host of the test on child processes, and what its result says.
use vmtest.Base.{
  Option, none, ok, ◌++◌, ℕ, List, [], ◌∷◌, some, false, Text, text, text_beq, trim_end, trim_start,
  arith, ◌≡◌, refl, ◌⊎◌,
}
use vmtest.Base.Integers.{ℤ, pos, as_i32}
use vmtest.Output.{Output}
use vmtest.Output.Interleave.{Interleaves, nobody, left}
use vmtest.Host.{
  Host, Outcome, fail, panic, unfinished, throw, blocking, pipe_stderr, done, ◌>>=◌, call, finally,
  context, ask, branch, attempt, match_result, match_option, pure, send, on_failure,
}
use vmtest.Guest.Streams.{boot_updates, command_updates}
use vmtest.Vmtest.Instance.{Vmtest}
use vmtest.Vmtest.RunOne.{run_one}
use vmtest.Vmtest.RunOne.Truthful.{RanAt, AsksShell, run_one-verdict}
use vmtest.Ui.Run.{count_failure}
use vmtest.Ui.Target.{target_ui}
use vmtest.Ui.Target.Verdict.{verdict}
use vmtest.Ui.Program.{ui_loop, ui_run, updates_of}
use vmtest.Ui.Program.Due.{Arrives}
use vmtest.Ui.Program.Truthful.{Worked, before, ui_run_zero}
use vmtest.Tests.Arguments.{machine, instance_of_one}
use vmtest.Tests.Runs.{render}
use vmtest.Tests.Sessions.{formats}
use vmtest.Tests.Screens.{terminal, writable}
use vmtest.Tests.Children.{box, idle_box, unmixed}

target_done : (run_one box 3 machine formats render instance_of_one 0 idle_box).0 ≡ done tt
unfolding blocking pipe_stderr run_one ◌>>=◌ attempt context ask call on_failure text_beq
    match_option match_result finally send branch trim_end trim_start
target_done = refl

target_passed :
    verdict (run_one box 3 machine formats render instance_of_one 0 idle_box).1.sent ≡ some (pos 0)
unfolding blocking pipe_stderr run_one ◌>>=◌ attempt context ask call on_failure text_beq
    match_option match_result finally send branch trim_end trim_start as_i32
target_passed = refl

run_one-verdict_example :
    ((pos 0 ≡ pos 0) × AsksShell box 3 machine formats render instance_of_one 0)
    ⊎ ((rc : ℤ) × RanAt box 3 machine formats render instance_of_one 0 idle_box rc
        × (pos 0 ≡ as_i32 rc))
run_one-verdict_example =
    run_one-verdict box 3 machine formats render instance_of_one 0 idle_box (pos 0) refl target_done
      target_passed

only_sent : (us : List Output) → Interleaves us [] us
only_sent [] = nobody
only_sent (u ∷ us) = left (only_sent us)

nothing_streamed : Interleaves (boot_updates []) (command_updates []) []
unfolding boot_updates command_updates
nothing_streamed = nobody

unmixed-Arrives : (idx : ℕ) (us : List Output) → Arrives us (unmixed idx us)
unmixed-Arrives idx us = record {
  boot_output = [];
  command_output = [];
  lines = [];
  streamed = nothing_streamed;
  mixed = only_sent us;
}

abbrev pass_screen : List Text
pass_screen = text "=> kernel" ∷ text "PASS" ∷ []

ui_passed :
    ui_run box 3 machine formats render instance_of_one terminal unmixed false [] idle_box ≡ (
      done (pos 0, pass_screen),
      (ui_run box 3 machine formats render instance_of_one terminal unmixed false [] idle_box).1,
    )
unfolding blocking pipe_stderr ui_run text_beq ◌>>=◌ ui_loop updates_of pure run_one attempt context
    ask call on_failure match_option match_result finally send branch trim_end trim_start target_ui
ui_passed = refl

ui_run_zero_example :
    Worked box 3 machine formats render instance_of_one 0
      (before box 3 machine formats render instance_of_one 0 0 idle_box)
ui_run_zero_example =
    ui_run_zero box 3 machine formats render instance_of_one terminal writable unmixed
      unmixed-Arrives false [] pass_screen idle_box _ ui_passed 0 (omega arith)

-- A QEMU that exits at once. Each child has a stderr of its own, so that both targets fail, and
-- neither panics.
abbrev failing_box : Host
failing_box = record box { try_wait = λ s. (ok (some false), s) }

abbrev two_targets : Vmtest
two_targets = record instance_of_one {
  config = record { target = instance_of_one.config.target ++ instance_of_one.config.target };
}

abbrev result_of : Outcome (ℤ × List Text) → Option ℤ
result_of (done r) = some r.0
result_of (fail e) = none
result_of panic = none
result_of unfinished = none

both_fail :
    result_of
      (ui_run failing_box 3 machine formats render two_targets terminal unmixed false [] idle_box).0
    ≡ some (pos 2)
unfolding blocking pipe_stderr ui_run text_beq ◌>>=◌ ui_loop updates_of pure run_one attempt context
    ask call on_failure match_option match_result finally send branch trim_end trim_start target_ui
    throw count_failure
both_fail = refl
