-- ===== src/Tests/Processes.antt =====
-- A process in the guest that writes to both streams.
use vmtest.Base.{
  [], ◌∷◌, ◌++◌, none, some, true, false, leb, text, ok, ◌≡◌, ◌↔◌, refl, lines, if◌then◌else◌,
}
use vmtest.Base.Integers.{pos}
use vmtest.Output.{command}
use vmtest.Host.{World, Host, ExecStatus, done}
use vmtest.Guest.{run_in_vm, next_period}
use vmtest.Guest.Poll.{Exits, exits_now, exits_later}
use vmtest.Guest.Reported.{reported}
use vmtest.Guest.Outcome.{RunsTo, run_in_vm-RunsTo}
use vmtest.Tests.Runs.{Clock, host, start, status_at, version}

abbrev failed_status : ExecStatus
failed_status = record {
  exited = true;
  exitcode = some (pos 3);
  out_data = some (text "a\nb\n");
  out_truncated = none;
  err_data = some (text "no");
  err_truncated = some true;
}

-- It has exited at the time 500.
abbrev failing_host : Host
failing_host = record host {
  guest_exec_status = λ pid s. (ok (if leb 500 s.time then failed_status else status_at 0), s);
}

abbrev ended : Clock
ended = record { time = 600; timeout = some 5000 }

exits : Exits failing_host (pos 1) 2 200 start.host failed_status ended
unfolding next_period
exits = exits_later refl refl refl (exits_later refl refl refl (exits_now refl refl refl))

abbrev reporting : World Clock
reporting = record start {
  host = ended;
  sent = start.sent ++ reported (some command) failed_status;
}

run_in_vm-RunsTo_example :
    (run_in_vm failing_host 3 version (some command) (text "bash") (text "-c" ∷ []) false start
      ≡ (done (pos 3), reporting))
    ↔ RunsTo failing_host 3 version
        (some command)
        (text "bash")
        (text "-c" ∷ [])
        false
        start
        (pos 3)
        reporting
run_in_vm-RunsTo_example =
    run_in_vm-RunsTo failing_host 3 version (some command) (text "bash") (text "-c" ∷ []) false
      start reporting (pos 3)

four_updates :
    reported (some command) failed_status
    ≡ command (text "a")
      ∷ command (text "b")
      ∷ command (text "no")
      ∷ command (text "<stderr truncation>")
      ∷ []
unfolding lines
four_updates = refl
