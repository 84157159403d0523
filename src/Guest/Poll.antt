-- ===== src/Guest/Poll.antt =====
-- The loop of `run_in_vm` that waits for the process: when it ends.
use vmtest.Base.{
  ℕ, zero, suc, ◌<◌, true, false, Bool-cases, inl, inr, ok, ◌≡◌, ap, sym, ◌∙◌, arith, text,
}
use mathlib.Core.Path.{subst}
use vmtest.Base.Integers.{ℤ}
use vmtest.Host.{
  on_status, out_of_fuel, Host, World, Act, Outcome, done, ExecStatus, branch, pure, call, ask,
  context, ◌>>=◌, continue, with_context,
}
use vmtest.Host.Inversion.{blocking-free, blocking-inv, call-done, bind-inv, call-inv, context-inv}
use vmtest.Qga.Connect.{guest_exec_status}
use vmtest.Guest.{poll, next_period}

-- The agent's answers: after `n` answers that the process still runs, each followed by its pause,
-- it answers that the process has exited.
pub data Exits (H : Host) (pid : ℤ) : ℕ → ℕ → H.State → ExecStatus → H.State → Type 0 where
  exits_now :
      {period : ℕ} {s s' : H.State} {status : ExecStatus}
      → H.hangs on_status s ≡ false
      → H.guest_exec_status pid s ≡ (ok status, s')
      → status.exited ≡ true
      → Exits H pid 0 period s status s'
  exits_later :
      {n period : ℕ} {s s' end : H.State} {status last : ExecStatus}
      → H.hangs on_status s ≡ false
      → H.guest_exec_status pid s ≡ (ok status, s')
      → status.exited ≡ false
      → Exits H pid n (next_period period) (H.sleep period s') last end
      → Exits H pid (suc n) period s last end

-- A round that goes on.
pause : (H : Host) → ℤ → ℕ → ℕ → Act H.State ExecStatus
pause H pid fuel period =
    ask (λ s. (tt, H.sleep period s)) >>= λ _. poll H fuel pid (next_period period)

module _ (H : Host) (pid : ℤ) (fuel period : ℕ) (status : ExecStatus) (w : World H.State) where
  branch-ends :
      status.exited ≡ true
      → branch status.exited (pure status) (pause H pid fuel period) w ≡ (done status, w)
  unfolding branch pure
  branch-ends x = ap (λ b. branch b (pure status) (pause H pid fuel period) w) x

  branch-again :
      status.exited ≡ false
      → branch status.exited (pure status) (pause H pid fuel period) w
        ≡ poll H fuel pid (next_period period) (record w { host = H.sleep period w.host })
  unfolding branch ◌>>=◌ ask pause
  branch-again x = ap (λ b. branch b (pure status) (pause H pid fuel period) w) x

poll_step :
    (H : Host) (pid : ℤ) (fuel period : ℕ) (w : World H.State) (status : ExecStatus) (s : H.State)
    → H.hangs on_status w.host ≡ false
    → H.guest_exec_status pid w.host ≡ (ok status, s)
    → poll H (suc fuel) pid period w
      ≡ branch status.exited (pure status) (pause H pid fuel period) (record w { host = s })
unfolding poll pause ◌>>=◌ context guest_exec_status
poll_step H pid fuel period w status s free e =
    ap
      (λ p.
        continue
          (with_context (text "Failed to QGA guest-exec-status")
            (with_context (text "error running guest_exec_status") p.0))
          (λ st.
            branch st.exited (pure st)
              (ask (λ s. (tt, H.sleep period s)) >>= λ _. poll H fuel pid (next_period period)))
          p.1)
      (blocking-free (H.hangs on_status) (call (H.guest_exec_status pid)) w free
        ∙ call-done (H.guest_exec_status pid) w status s e)

-- Where the agent answers `n` times that the process runs and then that it has exited, the loop
-- returns that last status on any fuel above `n`, and of the world only the host has changed, by
-- these answers and pauses.
pub poll-Exits :
    (H : Host) (pid : ℤ) (fuel n period : ℕ) (w : World H.State) (status : ExecStatus)
    (end : H.State)
    → Exits H pid n period w.host status end
    → n < fuel
    → poll H fuel pid period w ≡ (done status, record w { host = end })
poll-Exits H pid zero n period w status end e le = absurd (ground arith)
poll-Exits H pid (suc fuel) n period w status end (exits_now free a x) le =
    poll_step H pid fuel period w status end free a
    ∙ branch-ends H pid fuel period status (record w { host = end }) x
poll-Exits H pid (suc fuel) (suc n) period w last end (exits_later {s' = s} {status} free a x e)
      le =
    poll_step H pid fuel period w status s free a
    ∙ branch-again H pid fuel period status (record w { host = s }) x
    ∙ poll-Exits H pid fuel n (next_period period) (record w { host = H.sleep period s }) last end e
        (ground arith)

-- The loop has returned only so.
pub poll-inv :
    (H : Host) (pid : ℤ) (fuel period : ℕ) (w end : World H.State) (status : ExecStatus)
    → poll H fuel pid period w ≡ (done status, end)
    → (n : ℕ) × (s : H.State) × Exits H pid n period w.host status s
      × (n < fuel)
      × (end ≡ record w { host = s })
unfolding poll guest_exec_status pause ◌>>=◌
poll-inv H pid zero period w end status e = absurd (unfold out_of_fuel in cc e)
poll-inv H pid (suc fuel) period w end status e =
    let (found, w', asked, rest) =
      bind-inv (context (text "Failed to QGA guest-exec-status") (guest_exec_status H pid))
        (λ st. branch st.exited (pure st) (pause H pid fuel period)) w status end e in
    let (free, called) =
      blocking-inv (H.hangs on_status) (call (H.guest_exec_status pid)) w found w'
        (context-inv _ _ w found w' (context-inv _ _ w found w' asked)) in
    let (s, answer, same) = call-inv (H.guest_exec_status pid) w found w' called in
    elim (Bool-cases found.exited) [
      | inl x ↦
          let last : ◌≡◌ {A = Outcome ExecStatus × World H.State} (done found, w')
              (done status, end) =
            sym (branch-ends H pid fuel period found w' x) ∙ rest in
          (
            0,
            s,
            subst (λ st. Exits H pid 0 period w.host st s) (cc last) (exits_now free answer x),
            omega arith,
            cc (last, same),
          )
      | inr x ↦
          let (n, s', later, lt, same') =
            poll-inv H pid fuel (next_period period) (record w' { host = H.sleep period w'.host })
              end status (sym (branch-again H pid fuel period found w' x) ∙ rest) in
          (
            suc n,
            s',
            exits_later free answer x (
                subst (λ v. Exits H pid n (next_period period) (H.sleep period v.host) status s')
                  same later),
            omega (arith, lt),
            same' ∙ ap (λ (v : World H.State). record v { host = s' }) same,
          )
    ]
