-- ===== src/Guest/Returns.antt =====
-- What is run inside the guest returns, if the processes there end.
use vmtest.Base.{
  false, ℕ, zero, suc, ◌+◌, ◌*◌, ◌≤◌, List, [], ◌∷◌, Option, none, some, Bool, true, false,
  Bool-cases, Text, text, Result, ok, err, ◌≡◌, ◌≢◌, refl, ap, ◌∙◌, arith, inl, inr, lines,
}
use vmtest.Base.Integers.{ℤ}
use vmtest.Output.{Output}
use vmtest.Host.{
  on_exec, on_status, Host, World, Act, Outcome, unfinished, GuestExec, ExecStatus, pure, call, ask,
  context, continue, with_context, of_result, branch, ◌>>=◌,
}
use vmtest.Host.Inversion.{blocking-free}
use vmtest.Host.Returns.{Clock, Returns, continue-Returns, returns_rules}
use vmtest.Qga.Connect.{guest_exec, guest_exec_status}
use vmtest.Qga.Version.{Version}
use vmtest.Guest.{
  poll, next_period, send_lines, send_captured, send_truncation, send_status, report_status,
  run_in_vm,
}

-- The guest of a host with a clock: when a process was started, and that it has exited once `span`
-- milliseconds have passed since. None of the operations sets the clock back.
pub record Processes {H : Host} (L : Clock H) : Type 0 where
  pub span : ℕ
  pub started : ℤ → H.State → ℕ
  pub start :
      (command : GuestExec) (pid : ℤ) (s s' : H.State)
      → H.guest_exec command s ≡ (ok pid, s')
      → started pid s' ≤ L.time s'
  pub started-sleep : (pid : ℤ) (d : ℕ) (s : H.State) → started pid (H.sleep d s) ≡ started pid s
  pub started-status :
      (pid : ℤ) (s : H.State) → started pid (H.guest_exec_status pid s).1 ≡ started pid s
  pub ended :
      (pid : ℤ) (s s' : H.State) (status : ExecStatus)
      → H.guest_exec_status pid s ≡ (ok status, s')
      → started pid s + span ≤ L.time s
      → status.exited ≡ true
  -- the agent answers
  pub executes : (s : H.State) → H.hangs on_exec s ≡ false
  pub replies : (s : H.State) → H.hangs on_status s ≡ false
  pub exec : (command : GuestExec) (s : H.State) → L.time s ≤ L.time (H.guest_exec command s).1
  pub exec_status : (pid : ℤ) (s : H.State) → L.time s ≤ L.time (H.guest_exec_status pid s).1

module _ {H : Host} {L : Clock H} (G : Processes L) where
  -- The action returned, and not before `b`.
  abbrev Returned : {A : Type 0} → ℕ → Outcome A × World H.State → Type 0
  Returned b r = (r.0 ≢ unfinished) × (b ≤ L.time r.1.host)

  next_period-grows : (period : ℕ) → 200 ≤ period → 200 ≤ next_period period
  unfolding next_period
  next_period-grows period h = ground arith

  -- The fuel lasts until the process has ended.
  abbrev Lasts : ℕ → ℤ → World H.State → Type 0
  Lasts fuel pid w = G.started pid w.host + G.span ≤ L.time w.host + fuel * 200

  -- The rest of a round, once the agent has answered.
  abbrev round : ℕ → ℤ → ℕ → ExecStatus → Act H.State ExecStatus
  round fuel pid period status =
      branch status.exited (pure status)
        (ask (λ s. (tt, H.sleep period s)) >>= λ _. poll H fuel pid (next_period period))

  round-exited :
      (fuel b : ℕ) (pid : ℤ) (period : ℕ) (status : ExecStatus) (w : World H.State)
      → status.exited ≡ true
      → b ≤ L.time w.host
      → Returned b (round fuel pid period status w)
  unfolding branch pure
  round-exited fuel b pid period status w x h = rw x (λ e. cc, h)

  round-again :
      (fuel b : ℕ) (pid : ℤ) (period : ℕ) (status : ExecStatus) (w : World H.State)
      → status.exited ≡ false
      → Returned b
          (poll H fuel pid (next_period period) (record w { host = H.sleep period w.host }))
      → Returned b (round fuel pid period status w)
  unfolding branch ◌>>=◌ ask
  round-again fuel b pid period status w x h = rw x h

  answered :
      (fuel b : ℕ) (pid : ℤ) (period : ℕ) (w : World H.State) (r : Result ExecStatus) (s : H.State)
      → H.guest_exec_status pid w.host ≡ (r, s)
      → 200 ≤ period
      → b ≤ L.time w.host
      → Lasts fuel pid w
      → ((period' : ℕ) (w' : World H.State)
          → 200 ≤ period'
          → b ≤ L.time w'.host
          → L.time w.host + 200 ≤ L.time w'.host
          → G.started pid w'.host ≡ G.started pid w.host
          → fuel ≢ 0
          → Returned b (poll H fuel pid period' w'))
      → Returned b (
          continue
            (with_context
              (text "Failed to QGA guest-exec-status")
              (with_context (text "error running guest_exec_status") (of_result r)))
            (round fuel pid period)
            (record w { host = s }))
  answered fuel b pid period w (err e) s a p h lasts again =
      let later : L.time w.host ≤ L.time s = rw (ap (λ x. x.1) a) at (G.exec_status pid w.host) in
      (λ e. cc, omega (arith, later, h))
  answered fuel b pid period w (ok status) s a p h lasts again =
      let later : L.time w.host ≤ L.time s = rw (ap (λ x. x.1) a) at (G.exec_status pid w.host) in
      let same : G.started pid s ≡ G.started pid w.host =
        rw (ap (λ x. x.1) a) at (G.started-status pid w.host) in
      elim (Bool-cases status.exited) [
        | inl x ↦
            round-exited fuel b pid period status (record w { host = s }) x
              (omega (arith, later, h))
        | inr x ↦
            let more : fuel ≢ 0 = λ none_left.
              cc (x, G.ended pid w.host s status a (omega (arith, lasts, none_left))) in
            round-again fuel b pid period status (record w { host = s }) x
              (again (next_period period) (record w { host = H.sleep period s })
                (next_period-grows period p) (omega (arith, L.sleep period s, later, h))
                (omega (arith, L.sleep period s, later, p)) (G.started-sleep pid period s ∙ same)
                more)
      ]

  -- Each round takes 200 milliseconds at least, so that on `fuel` rounds the process ends.
  poll-Returned :
      (fuel b : ℕ) (pid : ℤ) (period : ℕ) (w : World H.State)
      → 200 ≤ period
      → b ≤ L.time w.host
      → Lasts fuel pid w
      → Returned b (poll H (suc fuel) pid period w)
  unfolding poll ◌>>=◌ context call guest_exec_status
  poll-Returned zero b pid period w p h lasts =
      rw (blocking-free (H.hangs on_status) (call (H.guest_exec_status pid)) w (G.replies w.host)) (
        answered zero b pid period w _ _ refl p h lasts
          (λ period' w' p' h' later same more. absurd (more refl)))
  poll-Returned (suc fuel) b pid period w p h lasts =
      rw (blocking-free (H.hangs on_status) (call (H.guest_exec_status pid)) w (G.replies w.host)) (
        answered (suc fuel) b pid period w _ _ refl p h lasts (λ period' w' p' h' later same more.
          poll-Returned fuel b pid period' w' p' h' (omega (arith, lasts, later, same))))

module _ {H : Host} (L : Clock H) (b : ℕ) where
  send_lines-Returns :
      (output : Text → Output) (ls : List Text) → Returns L b (send_lines output ls)
  unfolding send_lines
  send_lines-Returns output [] = search returns_rules
  send_lines-Returns output (l ∷ ls) =
      let rest = send_lines-Returns output ls in search returns_rules

  send_captured-Returns :
      (output : Text → Output) (captured : Option Text)
      → Returns L b (send_captured output captured)
  unfolding send_captured
  send_captured-Returns output none = search returns_rules
  send_captured-Returns output (some captured) = send_lines-Returns output (lines captured)

  send_truncation-Returns :
      (output : Text → Output) (truncated : Option Bool) (notice : Text)
      → Returns L b (send_truncation output truncated notice)
  unfolding send_truncation
  send_truncation-Returns output none notice = search returns_rules
  send_truncation-Returns output (some true) notice = search returns_rules
  send_truncation-Returns output (some false) notice = search returns_rules

  report_status-Returns :
      (output : Option (Text → Output)) (status : ExecStatus)
      → Returns L b (report_status output status)
  unfolding send_status
  report_status-Returns none status = search returns_rules
  report_status-Returns (some output) status =
      search (returns_rules, send_captured-Returns, send_truncation-Returns) depth 8

module _ {H : Host} {L : Clock H} (G : Processes L) where
  launched :
      {A : Type 0} (fuel b : ℕ) (command : GuestExec) (next : ExecStatus → Act H.State A)
      (w : World H.State) (r : Result ℤ) (s : H.State)
      → H.guest_exec command w.host ≡ (r, s)
      → G.span ≤ fuel * 200
      → b ≤ L.time w.host
      → ((status : ExecStatus) → Returns L b (next status))
      → Returned G b (
          continue
            (with_context
              (text "Failed to QGA guest-exec")
              (with_context (text "Error running guest_exec") (of_result r)))
            (λ pid. poll H (suc fuel) pid 200 >>= next)
            (record w { host = s }))
  unfolding ◌>>=◌
  launched fuel b command next w (err e) s x lasts h k =
      let later : L.time w.host ≤ L.time s = rw (ap (λ x. x.1) x) at (G.exec command w.host) in
      (λ e. cc, omega (arith, later, h))
  launched fuel b command next w (ok pid) s x lasts h k =
      let later : L.time w.host ≤ L.time s = rw (ap (λ x. x.1) x) at (G.exec command w.host) in
      let (n, t) =
        poll-Returned G fuel b pid 200 (record w { host = s }) (omega arith)
          (omega (arith, later, h)) (omega (arith, G.start command pid w.host s x, lasts)) in
      let w' = poll H (suc fuel) pid 200 (record w { host = s }) in
      continue-Returns L b w'.0 next w'.1 k n t

  -- If the processes in the guest end, then what is run there returns.
  pub run_in_vm-Returns :
      (fuel b : ℕ) (version : Version) (output : Option (Text → Output)) (cmd : Text)
      (args : List Text) (env : Bool)
      → G.span ≤ fuel * 200
      → Returns L b (run_in_vm H (suc fuel) version output cmd args env)
  unfolding run_in_vm ◌>>=◌ context call guest_exec
  run_in_vm-Returns fuel b version output cmd args env lasts = record {
    at = λ w h. rw (blocking-free (H.hangs on_exec) (call (H.guest_exec _)) w (G.executes w.host)) (
        launched fuel b _ _ w _ _ refl lasts h
          (λ status. search (returns_rules, report_status-Returns)));
  }
