-- ===== src/Vmtest/RunOne/Truthful.antt =====
-- The result of a target is the exit code of its command: `run_one` of src/vmtest.rs with the
-- updates that `target_ui` of src/ui.rs reads.
use vmtest.Base.{
  ℕ, List, [], some, Text, true, Result, ok, err, All, ◌≡◌, sym, ap, ◌∙◌, ◌++◌, ◌⊎◌, inl, inr,
}
use mathlib.Core.Path.{subst}
use vmtest.Base.Integers.{ℤ, pos, as_i32}
use vmtest.Config.{Target}
use vmtest.Output.{Output, boot_end}
use vmtest.Output.Order.{idle, ready, failed, follow}
use vmtest.Host.{Host, World, done, send, attempt, match_result}
use vmtest.Host.Inversion.{attempt-inv}
use vmtest.Host.Sends.{Sent, Sent-bind, SendsOnly-attempt, SendsOnly-send}
use vmtest.Host.Moves.{Ends}
use vmtest.Qemu.Args.{Machine}
use vmtest.Qemu.Instance.{Qemu, CommandContext}
use vmtest.Qemu.New.{Formats}
use vmtest.Qemu.New.Made.{Made}
use vmtest.Qemu.Run.{run}
use vmtest.Qemu.Run.Protocol.{Never}
use vmtest.Qemu.Run.Truthful.{RanFrom, Allows, run-Only}
use vmtest.Ui.Target.Code.{Codes, verdict-IsCode}
use vmtest.Ui.Target.Outcome.{verdict-Reported}
use vmtest.Ui.Target.Verdict.{verdict}
use vmtest.Vmtest.Instance.{Vmtest, setup_target}
use vmtest.Vmtest.RunOne.{setup_qemu, run_one}
use vmtest.Vmtest.RunOne.Made.{setup_qemu-SendsOnly, setup_qemu-Made}
use vmtest.Vmtest.RunOne.Protocol.{wants_shell, ClosedOne, run_one-follow}

module _ (H : Host) (fuel : ℕ) (m : Machine) (fmt : Formats) (render : CommandContext → Text)
    (v : Vmtest) where
  -- From the world `w` on: an instance has been made for the target at the index, it has booted
  -- and has been set up, and in it the command has exited with the code.
  pub RanAt : ℕ → World H.State → ℤ → Type 0
  RanAt idx w rc =
      (t : Target) × (q : Qemu) × (w₁ : World H.State) × (setup_target v idx ≡ ok t)
      × Made m t v.base q
      × (setup_qemu H fuel m fmt render v idx w ≡ (done q, w₁))
      × RanFrom H fuel m render q w₁ rc

  -- The target at the index asks for a shell.
  abbrev pub AsksShell : ℕ → Type 0
  AsksShell idx = (t : Target) × (setup_target v idx ≡ ok t) × (wants_shell t ≡ true)

  own_results :
      (idx : ℕ) (w w' : World H.State) (q : Qemu)
      → setup_qemu H fuel m fmt render v idx w ≡ (done q, w')
      → Allows H fuel m render q (Codes (RanAt idx w)) w'
  unfolding RanAt
  own_results idx w w' q e =
      let (t, target, made) = setup_qemu-Made H fuel m fmt render v idx w w' q e in
      record {
        booting = tt;
        booted = λ r. tt;
        setting_up = tt;
        mounting = λ line k. tt;
        set_up = λ r. tt;
        starting = tt;
        printing = λ line k. tt;
        not_run = λ x. tt;
        exited = λ rc ran. (t, q, w', target, made, e, ran);
      }

  run_one-Codes :
      (idx : ℕ) (w : World H.State)
      → Sent (Codes (RanAt idx w)) w.sent (run_one H fuel m fmt render v idx w).1.sent
  unfolding run_one
  run_one-Codes idx w =
      Sent-bind (attempt (setup_qemu H fuel m fmt render v idx)) _ w
        ((SendsOnly-attempt _ (setup_qemu-SendsOnly H fuel m fmt render v idx)).at w) reported
    where
      reported :
          (r : Result Qemu) (w' : World H.State)
          → attempt (setup_qemu H fuel m fmt render v idx) w ≡ (done r, w')
          → Sent
              (Codes (RanAt idx w))
              w'.sent
              (match_result r (λ q. run H fuel m render q) (λ e. send (boot_end (err e))) w').1.sent
      reported (err x) w' e = unfold match_result in (SendsOnly-send (boot_end (err x)) tt).at w'
      reported (ok q) w' e =
          let built = attempt-inv (setup_qemu H fuel m fmt render v idx) w q w' e in
          unfold match_result in run-Only H fuel m render q w' (own_results idx w w' q built)

  -- Of `run_one` on an empty channel that returns: if the result of its updates is a number, then
  -- either it is 0 and the target asks for a shell, or in this run an instance has been made for
  -- the target, it has booted and has been set up, the agent in it has then run the rendered script
  -- by bash and has answered that it exited, and the number is the exit code that it gave, or 0
  -- where it gave none, as for a process that a signal has killed, as an `i32`.
  pub run_one-verdict :
      (idx : ℕ) (w : World H.State) (code : ℤ)
      → w.sent ≡ []
      → (run_one H fuel m fmt render v idx w).0 ≡ done tt
      → verdict (run_one H fuel m fmt render v idx w).1.sent ≡ some code
      → ((code ≡ pos 0) × AsksShell idx) ⊎ ((rc : ℤ) × RanAt idx w rc × (code ≡ as_i32 rc))
  run_one-verdict idx w code h returns e =
      let (p, follows, ends) = run_one-follow H fuel m fmt render v idx w h in
      elim (subst (λ r. Ends (λ _. ClosedOne v idx) Never r p) returns ends) [
        | inl last ↦
            let (rc, ran, same) =
              verdict-IsCode (RanAt idx w) sent
                (subst (λ p. follow idle sent ≡ some p) last follows) codes in
            inr (rc, ran, cc)
        | inr (inl last) ↦ absurd (
            cc (
              e,
              verdict-Reported failed sent (subst (λ p. follow idle sent ≡ some p) last follows),
            ))
        | inr (inr (last, shell)) ↦ inl (
          cc (e, verdict-Reported ready sent (subst (λ p. follow idle sent ≡ some p) last follows)),
          shell,
        )
      ]
    where
      sent : List Output
      sent = (run_one H fuel m fmt render v idx w).1.sent

      codes : All (Codes (RanAt idx w)) sent
      codes =
          let s = run_one-Codes idx w in
          subst (All (Codes (RanAt idx w))) (sym (s.added ∙ ap (λ us. us ++ s.new) h)) s.allowed
