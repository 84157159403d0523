-- ===== src/Guest/Outcome.antt =====
-- `run_in_vm` of src/qemu.rs on a process that exits: its exit code, and its output.
use vmtest.Base.{
  false, ℕ, ◌<◌, List, ◌++◌, Option, none, some, Bool, Text, text, ok, get_or, ◌≡◌, sym, ap, ◌∙◌,
  ◌↔◌, if◌then◌else◌,
}
use mathlib.Core.Path.{subst}
use vmtest.Base.Integers.{ℤ, pos}
use vmtest.Output.{Output}
use vmtest.Host.{
  on_exec, call, Host, World, Act, GuestExec, ExecStatus, Outcome, done, pure, context, ◌>>=◌,
}
use vmtest.Host.Inversion.{
  blocking-free, blocking-inv, bind-done, bind-inv, context-done, context-inv, call-done, call-inv,
}
use vmtest.Qga.Version.{Version}
use vmtest.Qga.Connect.{guest_exec}
use vmtest.Guest.{capture_mode, env_entries, poll, report_status, run_in_vm}
use vmtest.Guest.Poll.{Exits, poll-Exits, poll-inv}
use vmtest.Guest.Reported.{sending, reported, report_status-done}

-- What the agent is asked to run.
abbrev pub request : Host → Version → Text → List Text → Bool → GuestExec
request H version cmd args propagate_env = record {
  path = cmd;
  arg = args;
  capture_output = capture_mode version;
  env = if propagate_env then some (env_entries H.env_vars) else none;
}

module _ (H : Host) (fuel : ℕ) (version : Version) where
  -- What follows the start of the process.
  abbrev finishing : Option (Text → Output) → ExecStatus → Act H.State ℤ
  finishing output status =
      report_status output status >>= λ _. pure (get_or status.exitcode (pos 0))

  abbrev waiting : Option (Text → Output) → ℤ → Act H.State ℤ
  waiting output pid = poll H fuel pid 200 >>= λ status. finishing output status

  run_in_vm_of_Exits :
      (output : Option (Text → Output)) (cmd : Text) (args : List Text) (propagate_env : Bool)
      (pid : ℤ) (n : ℕ) (w : World H.State) (s end : H.State) (status : ExecStatus)
      → H.hangs on_exec w.host ≡ false
      → H.guest_exec (request H version cmd args propagate_env) w.host ≡ (ok pid, s)
      → Exits H pid n 200 s status end
      → n < fuel
      → run_in_vm H fuel version output cmd args propagate_env w ≡ (
        done (get_or status.exitcode (pos 0)),
        record w { host = end; sent = w.sent ++ reported output status },
      )
  unfolding run_in_vm guest_exec pure
  run_in_vm_of_Exits output cmd args propagate_env pid n w s end status free started exits lt =
      let asked : World H.State = record w { host = s } in
      let exited : World H.State = record w { host = end } in
      bind-done
        (context (text "Failed to QGA guest-exec")
          (guest_exec H (request H version cmd args propagate_env)))
        (waiting output) w pid asked
        (context-done _ _ w pid asked (
          context-done _ _ w pid asked
            (blocking-free (H.hangs on_exec) (call _) w free ∙ call-done _ w pid s started)))
      ∙ bind-done (poll H fuel pid 200) (finishing output) asked status exited
          (poll-Exits H pid fuel n 200 asked status end exits lt)
      ∙ bind-done (report_status output status) (λ _. pure (get_or status.exitcode (pos 0))) exited
          tt (sending exited (reported output status)) (report_status-done output status exited)

  -- The agent starts the process, in one state of the host; it answers some times, fewer than the
  -- fuel, that the process runs, and then that it has exited, in another state. The exit code is
  -- the one of that answer, 0 where there is none. What is handed over are the lines of stdout,
  -- then those of stderr, each with its notice where it was cut short, or nothing where the output
  -- is dropped.
  pub RunsTo :
      Option (Text → Output) → Text → List Text → Bool → World H.State → ℤ → World H.State → Type 0
  RunsTo output cmd args propagate_env w rc end =
      (pid : ℤ) × (n : ℕ) × (s s' : H.State) × (status : ExecStatus) × (H.hangs on_exec w.host
        ≡ false)
      × (H.guest_exec (request H version cmd args propagate_env) w.host ≡ (ok pid, s))
      × Exits H pid n 200 s status s'
      × (n < fuel)
      × (get_or status.exitcode (pos 0) ≡ rc)
      × (record w { host = s'; sent = w.sent ++ reported output status } ≡ end)

  finishing-inv :
      (output : Option (Text → Output)) (status : ExecStatus) (w end : World H.State) (rc : ℤ)
      → finishing output status w ≡ (done rc, end)
      → (get_or status.exitcode (pos 0) ≡ rc) × (sending w (reported output status) ≡ end)
  unfolding pure
  finishing-inv output status w end rc e =
      let finished : ◌≡◌ {A = Outcome ℤ × World H.State}
          (done (get_or status.exitcode (pos 0)), sending w (reported output status))
          (done rc, end) =
        sym (
          bind-done (report_status output status) (λ _. pure (get_or status.exitcode (pos 0))) w tt
            (sending w (reported output status)) (report_status-done output status w))
        ∙ e in
      (cc finished, cc finished)

  pub run_in_vm-inv :
      (output : Option (Text → Output)) (cmd : Text) (args : List Text) (propagate_env : Bool)
      (w end : World H.State) (rc : ℤ)
      → run_in_vm H fuel version output cmd args propagate_env w ≡ (done rc, end)
      → RunsTo output cmd args propagate_env w rc end
  unfolding run_in_vm guest_exec RunsTo
  run_in_vm-inv output cmd args propagate_env w end rc e =
      let (pid, w₁, asked, waited) =
        bind-inv
          (context (text "Failed to QGA guest-exec")
            (guest_exec H (request H version cmd args propagate_env)))
          (waiting output) w rc end e in
      let command = request H version cmd args propagate_env in
      let (free, called) =
        blocking-inv (H.hangs on_exec) (call (H.guest_exec command)) w pid w₁
          (context-inv _ _ w pid w₁ (context-inv _ _ w pid w₁ asked)) in
      let (s, started, same₁) = call-inv (H.guest_exec command) w pid w₁ called in
      let (status, w₂, polled, rest) =
        bind-inv (poll H fuel pid 200) (finishing output) w₁ rc end waited in
      let (n, s', exits, lt, same₂) = poll-inv H pid fuel 200 w₁ w₂ status polled in
      let (code, ended) = finishing-inv output status w₂ end rc rest in
      (
        pid,
        n,
        s,
        s',
        status,
        free,
        started,
        subst (λ (v : World H.State). Exits H pid n 200 v.host status s') same₁ exits,
        lt,
        code,
        sym (
              ap (λ (v : World H.State). sending v (reported output status))
                (same₂ ∙ ap (λ (v : World H.State). record v { host = s' }) same₁))
            ∙ ended,
      )

  -- `run_in_vm` returns the exit code `rc` exactly if the agent answers and has started the
  -- process, and has answered, fewer times than the fuel, that it runs, and then that it has exited
  -- with `rc`, 0 where it gives no code; and it hands over the lines of stdout, then those of
  -- stderr, each with its notice where it was cut short, or nothing where the output is dropped.
  pub run_in_vm-RunsTo :
      (output : Option (Text → Output)) (cmd : Text) (args : List Text) (propagate_env : Bool)
      (w end : World H.State) (rc : ℤ)
      → (run_in_vm H fuel version output cmd args propagate_env w ≡ (done rc, end))
        ↔ RunsTo output cmd args propagate_env w rc end
  unfolding RunsTo
  run_in_vm-RunsTo output cmd args propagate_env w end rc = (
    run_in_vm-inv output cmd args propagate_env w end rc,
    λ (pid, n, s, s', status, free, started, exits, lt, code, ended).
        run_in_vm_of_Exits output cmd args propagate_env pid n w s s' status free started exits lt
        ∙ cc (code, ended),
  )
