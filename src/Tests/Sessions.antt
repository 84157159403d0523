-- ===== src/Tests/Sessions.antt =====
-- A target from the command line to the exit code.
use vmtest.Base.{
  context, ℕ, List, [], ◌∷◌, some, true, Text, text, leb, ◌≡◌, ◌≢◌, ◌↔◌, ◌≤◌, ap, sym, ◌∙◌, refl,
  All, arith,
}
use vmtest.Base.Integers.{pos}
use vmtest.Output.{Output, boot, command}
use vmtest.Output.Order.{Phase, idle, follow}
use vmtest.Output.Interleave.{Interleaves, nobody, left, right}
use vmtest.Host.{unfinished}
use vmtest.Host.Moves.{Ends}
use vmtest.Qemu.New.{Formats}
use vmtest.Qemu.Run.Protocol.{Never}
use vmtest.Guest.Returns.{Processes}
use vmtest.Guest.Streams.{boot_updates, command_updates}
use vmtest.Vmtest.RunOne.{run_one}
use vmtest.Vmtest.RunOne.Protocol.{ClosedOne, run_one-follow}
use vmtest.Vmtest.Session.{run_one-target_ui}
use vmtest.Ui.Target.{target_ui}
use vmtest.Ui.Target.Verdict.{verdict}
use vmtest.Ui.Target.Outcome.{Reported}
use vmtest.Ui.Run.{Session}
use vmtest.Ui.Run.Count.{Passes, due}
use vmtest.Ui.Program.{ui_run}
use vmtest.Ui.Program.Due.{Arrives, sessions, Refines}
use vmtest.Ui.Program.Due.Result.{IsDue, ui_run-Refines}
use vmtest.Main.{init_logging, config, exit_status}
use vmtest.Main.Program.{main}
use vmtest.Main.Program.Exit.{IsProgram, exit_status_zero, main-IsProgram, main_returns}
use vmtest.Tests.Arguments.{machine, instance_of_one}
use vmtest.Tests.CommandLine.{sys, file_args}
use vmtest.Tests.Runs.{host, host_clock, start, render, status_at}
use vmtest.Tests.Screens.{terminal, writable}

abbrev pub formats : Formats
formats = record {
  render_init = λ path. text "export PATH=";
  show_path = λ path. path;
  show_parent = λ dir. text "";
}

run_one-follow_example :
    (p : Phase) × (follow idle
        (run_one host 3 machine formats render instance_of_one 0 start).1.sent
      ≡ some p)
    × Ends
        (λ _. ClosedOne instance_of_one 0)
        Never
        (run_one host 3 machine formats render instance_of_one 0 start).0
        p
run_one-follow_example = run_one-follow host 3 machine formats render instance_of_one 0 start refl

-- What the threads read, a line each, and how their lines arrive.
streamed :
    Interleaves
      (boot_updates (text "[ 0.1]\n"))
      (command_updates (text "hi\n"))
      (command (text "hi") ∷ boot (text "[ 0.1]") ∷ [])
unfolding boot_updates command_updates
streamed = right (left nobody)

-- The updates of the run arrive first.
all_first : (us lines : List Output) → (zs : List Output) × Interleaves us lines zs
all_first [] [] = ([], nobody)
all_first [] (l ∷ lines) = let (zs, i) = all_first [] lines in (l ∷ zs, right i)
all_first (u ∷ us) lines = let (zs, i) = all_first us lines in (u ∷ zs, left i)

abbrev two_lines : List Output
two_lines = command (text "hi") ∷ boot (text "[ 0.1]") ∷ []

arrive : ℕ → List Output → List Output
arrive idx us = (all_first us two_lines).0

arrival : (idx : ℕ) (us : List Output) → Arrives us (arrive idx us)
unfolding arrive
arrival idx us = record {
  boot_output = text "[ 0.1]\n";
  command_output = text "hi\n";
  lines = two_lines;
  streamed = streamed;
  mixed = (all_first us two_lines).1;
}

run_one-target_ui_example :
    (s' : List Text) × (target_ui terminal
        (text "kernel")
        true
        (arrive 0 (run_one host 3 machine formats render instance_of_one 0 start).1.sent)
        []
      ≡ some (verdict (run_one host 3 machine formats render instance_of_one 0 start).1.sent, s'))
    × ((p : Phase) × (follow idle
            (run_one host 3 machine formats render instance_of_one 0 start).1.sent
          ≡ some p)
        × Reported p
            (verdict (run_one host 3 machine formats render instance_of_one 0 start).1.sent)
        × Ends
            (λ _. ClosedOne instance_of_one 0)
            Never
            (run_one host 3 machine formats render instance_of_one 0 start).0
            p)
unfolding arrival
run_one-target_ui_example =
    run_one-target_ui host 3 machine formats render instance_of_one terminal writable 0 start
      (text "[ 0.1]\n") (text "hi\n") two_lines
      (arrive 0 (run_one host 3 machine formats render instance_of_one 0 start).1.sent)
      (text "kernel") true [] refl streamed
      (arrival 0 (run_one host 3 machine formats render instance_of_one 0 start).1.sent).mixed

ui_run-Refines_example :
    Refines host 3 machine formats render instance_of_one 0 instance_of_one.config.target
      (IsDue host 3 machine formats render instance_of_one terminal writable arrive arrival)
      (sessions host 3 machine formats render instance_of_one 0 instance_of_one.config.target
        start).0
      (ui_run host 3 machine formats render instance_of_one terminal arrive true [] start).0
ui_run-Refines_example =
    ui_run-Refines host 3 machine formats render instance_of_one terminal writable arrive arrival
      true [] start

main-IsProgram_example :
    IsProgram host 3 machine formats render terminal writable arrive arrival
      (context (text "Failed to initialize logging") (init_logging sys))
      (config sys file_args)
      start
      (main host 3 machine formats render terminal arrive sys file_args [] start)
main-IsProgram_example =
    main-IsProgram host 3 machine formats render terminal writable arrive arrival sys file_args []
      start

-- Two targets without an update pass.
abbrev silent : List Session
silent = (text "a", []) ∷ (text "b", []) ∷ []

exit_status_zero_example : (exit_status (due silent) ≡ 0) ↔ All Passes silent
exit_status_zero_example = exit_status_zero silent 0 refl (omega arith)

-- Of as many targets as there are exit codes, all of which fail, the exit code is 0.
all_fail : exit_status (pos 256) ≡ 0
unfolding exit_status
all_fail = refl

late_exited : (time : ℕ) → 500 ≤ time → leb 500 time ≡ true
late_exited time h = ground arith

-- A process in the guest has exited at the time 500.
processes : Processes host_clock
processes = record {
  span = 500;
  started = λ pid s. 0;
  start = λ command pid s s' e. omega arith;
  started-sleep = λ pid d s. refl;
  started-status = λ pid s. refl;
  ended = λ pid s s' status e late.
      let same : status_at s.time ≡ status = cc e in
      ap (λ st. st.exited) (sym same) ∙ late_exited s.time (omega (arith, late));
  executes = λ s. refl;
  replies = λ s. refl;
  exec = λ command s. omega arith;
  exec_status = λ pid s. omega arith;
}

main_returns_example :
    (main host 121 machine formats render terminal arrive sys file_args [] start).0 ≢ unfinished
unfolding processes
main_returns_example =
    main_returns processes 120 (omega arith) (omega arith) machine formats render terminal arrive
      sys file_args [] start
