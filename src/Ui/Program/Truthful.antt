-- ===== src/Ui/Program/Truthful.antt =====
-- What a result of 0 of `Ui::run` says of the targets.
use vmtest.Base.{
  ℕ, zero, suc, ◌+◌, ◌<◌, List, [], ◌∷◌, Option, none, some, Bool, true, false, Text, length,
  get_or, ◌==◌, nat_eq, ◌≡◌, refl, sym, ap, ◌∙◌, ◌⊎◌, inl, inr, arith,
}
use mathlib.Core.Path.{subst}
use vmtest.Base.Integers.{ℤ, pos, ℤ_eq, as_i32}
use vmtest.Config.{Target}
use vmtest.Output.{Output}
use vmtest.Host.{Host, World, Act, done, ◌>>=◌, pure, panics, match_option, branch}
use vmtest.Host.Inversion.{bind-inv}
use vmtest.Qemu.Args.{Machine}
use vmtest.Qemu.Instance.{CommandContext}
use vmtest.Qemu.New.{Formats}
use vmtest.Vmtest.Instance.{Vmtest}
use vmtest.Vmtest.RunOne.{run_one}
use vmtest.Vmtest.RunOne.Truthful.{RanAt, AsksShell, run_one-verdict}
use vmtest.Vmtest.Session.{run_one-target_ui}
use vmtest.Ui.Terminal.{Term, Writable}
use vmtest.Ui.Target.{target_ui}
use vmtest.Ui.Target.Verdict.{verdict}
use vmtest.Ui.Run.{count_failure, ex_unavailable}
use vmtest.Ui.Run.Count.{two_not_one}
use vmtest.Ui.Program.{channel, received, updates_of, ui_loop, ui_run}
use vmtest.Ui.Program.Due.{Arrives}

module _ (H : Host) (fuel : ℕ) (m : Machine) (fmt : Formats) (render : CommandContext → Text)
    (v : Vmtest) where
  -- A target starts with an empty channel.
  abbrev pub opened : World H.State → World H.State
  opened w = record w { sent = [] }

  abbrev behind : ℕ → World H.State → World H.State
  behind idx w = (run_one H fuel m fmt render v idx (opened w)).1

  -- The world in which the target at `idx + i` starts, where the one at `idx` starts in `w`: each
  -- target starts where the one before it has ended.
  abbrev pub before : ℕ → ℕ → World H.State → World H.State
  before zero idx w = w
  before (suc i) idx w = before i (suc idx) (behind idx w)

  -- The target at the index asks for a shell, or its command, in the run from the world `w` on, has
  -- exited with 0, as an `i32`.
  abbrev pub Worked : ℕ → World H.State → Type 0
  Worked idx w =
      AsksShell H fuel m fmt render v idx
      ⊎ ((rc : ℤ) × RanAt H fuel m fmt render v idx (opened w) rc × (pos 0 ≡ as_i32 rc))

  abbrev AllWorked : ℕ → List Target → World H.State → Type 0
  AllWorked idx [] w = Unit
  AllWorked idx (t ∷ ts) w = Worked idx w × AllWorked (suc idx) ts (behind idx w)

  AllWorked-at :
      (idx i : ℕ) (ts : List Target) (w : World H.State)
      → AllWorked idx ts w
      → i < length ts
      → Worked (idx + i) (before i idx w)
  AllWorked-at idx i [] w h k = absurd (omega arith)
  AllWorked-at idx zero (t ∷ ts) w (h, hs) k =
      let same : idx ≡ idx + 0 = omega arith in subst (λ n. Worked n w) same h
  AllWorked-at idx (suc i) (t ∷ ts) w (h, hs) k =
      let same : suc idx + i ≡ idx + suc i = omega arith in
      subst (λ n. Worked n (before i (suc idx) (behind idx w))) same
        (AllWorked-at (suc idx) i ts (behind idx w) hs (omega arith))

  -- The updates of a target are those of a run on an empty channel that has returned.
  updates_of-inv :
      (idx : ℕ) (w end : World H.State) (us : List Output)
      → updates_of H fuel m fmt render v idx w ≡ (done us, end)
      → ((run_one H fuel m fmt render v idx (opened w)).0 ≡ done tt)
        × (us ≡ (behind idx w).sent)
        × (end ≡ behind idx w)
  unfolding updates_of channel received pure
  updates_of-inv idx w end us e =
      let (u, w₁, emptied, rest) =
        bind-inv channel (λ _. run_one H fuel m fmt render v idx >>= λ _. received) w us end e in
      let (u', w₂, ran, read) =
        bind-inv (run_one H fuel m fmt render v idx) (λ _. received) w₁ us end rest in
      let start : record w { sent = [] } ≡ w₁ = cc emptied in
      let went = subst (λ x. run_one H fuel m fmt render v idx x ≡ (done tt, w₂)) (sym start) ran in
      let last : us ≡ w₂.sent = cc read in
      let kept : end ≡ w₂ = cc read in
      (ap (λ r. r.0) went, last ∙ ap (λ r. r.1.sent) (sym went), kept ∙ ap (λ r. r.1) (sym went))

-- The code that stands for a command that was not run is not 0.
result_zero : (rc : Option ℤ) → get_or rc ex_unavailable ≡ pos 0 → rc ≡ some (pos 0)
result_zero none e = absurd (cc e)
result_zero (some code) e = ap some e

module _ {S A : Type 0} where
  shown-inv :
      (o : Option A) (w end : World S) (a : A)
      → match_option o panics pure w ≡ (done a, end)
      → (o ≡ some a) × (w ≡ end)
  unfolding match_option panics pure
  shown-inv none w end a e = absurd (cc e)
  shown-inv (some b) w end a e = (cc e, cc e)

module _ (H : Host) (fuel : ℕ) (m : Machine) (fmt : Formats) (render : CommandContext → Text)
    (v : Vmtest) (T : Term) (W : Writable T) (arrive : ℕ → List Output → List Output)
    (arrival : (idx : ℕ) (us : List Output) → Arrives us (arrive idx us)) where
  -- A target whose result is shown as 0 has worked.
  shown-Worked :
      (idx : ℕ) (w end : World H.State) (us : List Output) (name : Text) (show_cmd : Bool)
      (s s' : T.Screen) (rc : Option ℤ)
      → updates_of H fuel m fmt render v idx w ≡ (done us, end)
      → target_ui T name show_cmd (arrive idx us) s ≡ some (rc, s')
      → get_or rc ex_unavailable ≡ pos 0
      → Worked H fuel m fmt render v idx w
  shown-Worked idx w end us name show_cmd s s' rc e shown passed =
      let start : World H.State = record w { sent = [] } in
      let sent : List Output = (run_one H fuel m fmt render v idx start).1.sent in
      let (returns, same, _) = updates_of-inv H fuel m fmt render v idx w end us e in
      let a = arrival idx sent in
      let (s'', settled, _) =
        run_one-target_ui H fuel m fmt render v T W idx start a.boot_output a.command_output a.lines
          (arrive idx sent) name show_cmd s refl a.streamed a.mixed in
      let shown' =
        subst (λ us. target_ui T name show_cmd (arrive idx us) s ≡ some (rc, s')) same shown in
      let result : verdict sent ≡ rc = cc (settled, shown') in
      let ran : rc ≡ some (pos 0) = result_zero rc passed in
      elim (run_one-verdict H fuel m fmt render v idx start (pos 0) refl returns (result ∙ ran)) [
        | inl (zero_code, shell) ↦ inl shell
        | inr exited ↦ inr exited
      ]

  abbrev looping : Bool → Bool → ℕ → ℕ → List Target → T.Screen → Act H.State (ℤ × T.Screen)
  looping = ui_loop H fuel m fmt render v T arrive

  -- What a loop that returns went through with its first target.
  loop-inv :
      (show_cmd single_cmd : Bool) (failed idx : ℕ) (t : Target) (ts : List Target) (s : T.Screen)
      (w end : World H.State) (result : ℤ × T.Screen)
      → looping show_cmd single_cmd failed idx (t ∷ ts) s w ≡ (done result, end)
      → (rc : Option ℤ) × (s' : T.Screen) × (get_or rc ex_unavailable ≡ pos 0
          → Worked H fuel m fmt render v idx w)
        × (branch single_cmd
              (pure (get_or rc ex_unavailable, s'))
              (looping show_cmd single_cmd
                (count_failure failed (get_or rc ex_unavailable))
                (suc idx)
                ts
                s')
              (behind H fuel m fmt render v idx w)
            ≡ (done result, end))
  unfolding ui_loop
  loop-inv show_cmd single_cmd failed idx t ts s w end result e =
      let shown = λ (us : List Output).
        match_option (target_ui T t.name show_cmd (arrive idx us) s) panics pure in
      let next = λ (x : Option ℤ × T.Screen).
        branch single_cmd (pure (get_or x.0 ex_unavailable, x.1)) (
          looping show_cmd single_cmd (count_failure failed (get_or x.0 ex_unavailable)) (suc idx)
            ts x.1) in
      let (us, w₁, ran, rest) =
        bind-inv (updates_of H fuel m fmt render v idx) (λ us. shown us >>= next) w result end e in
      let ((rc, s'), w₂, seen, more) = bind-inv (shown us) next w₁ result end rest in
      let (seen_as, kept) = shown-inv _ w₁ w₂ (rc, s') seen in
      let (_, _, left) = updates_of-inv H fuel m fmt render v idx w w₁ us ran in
      (
        rc,
        s',
        shown-Worked idx w w₁ us t.name show_cmd s s' rc ran seen_as,
        subst (λ x. next (rc, s') x ≡ (done result, end)) (sym kept ∙ left) more,
      )

  counted : (failed : ℕ) (rc : ℤ) → count_failure failed rc ≡ 0 → (failed ≡ 0) × (rc ≡ pos 0)
  unfolding count_failure
  counted failed rc e = ground arith

  -- Where the failures are counted and their number is 0, none has been counted.
  loop-AllWorked :
      (show_cmd : Bool) (failed idx : ℕ) (ts : List Target) (s s' : T.Screen)
      (w end : World H.State)
      → looping show_cmd false failed idx ts s w ≡ (done (pos 0, s'), end)
      → (failed ≡ 0) × AllWorked H fuel m fmt render v idx ts w
  loop-AllWorked show_cmd failed idx [] s s' w end e =
      unfold ui_loop pure in let same : pos failed ≡ pos 0 = cc e in (cc, tt)
  loop-AllWorked show_cmd failed idx (t ∷ ts) s s' w end e =
      let (rc, s₁, worked, rest) = loop-inv show_cmd false failed idx t ts s w end (pos 0, s') e in
      let (none_failed, others) =
        loop-AllWorked show_cmd (count_failure failed (get_or rc ex_unavailable)) (suc idx) ts s₁ s'
          (behind H fuel m fmt render v idx w) end (unfold branch in rest) in
      let (none_before, passed) = counted failed (get_or rc ex_unavailable) none_failed in
      (none_before, (worked passed, others))

  run-AllWorked :
      (show_cmd : Bool) (ts : List Target) (s s' : T.Screen) (w end : World H.State)
      → looping show_cmd (length ts == 1) 0 0 ts s w ≡ (done (pos 0, s'), end)
      → AllWorked H fuel m fmt render v 0 ts w
  run-AllWorked show_cmd [] s s' w end e = tt
  run-AllWorked show_cmd (t ∷ []) s s' w end e =
      let (rc, s₁, worked, rest) = loop-inv show_cmd true 0 0 t [] s w end (pos 0, s') e in
      unfold branch pure in (worked (cc rest), tt)
  run-AllWorked show_cmd (t ∷ t' ∷ ts) s s' w end e =
      let many =
        subst (λ b. looping show_cmd b 0 0 (t ∷ t' ∷ ts) s w ≡ (done (pos 0, s'), end))
          (two_not_one (length ts)) e in
      (loop-AllWorked show_cmd 0 0 (t ∷ t' ∷ ts) s s' w end many).1

  -- Where no write to the terminal fails, and however the updates arrive among the lines that are
  -- streamed: if `Ui::run` over `run_one` returns 0, then of each target of the configuration,
  -- which starts where the run of the one before it has ended: it asks for a shell, or from there
  -- an instance has been made for it, it has booted and has been set up, and the agent in it has
  -- then run the rendered script by bash and has answered that it exited, and the code that it
  -- gave, or 0 where it gave none, is 0 as an `i32`.
  pub ui_run_zero :
      (show_cmd : Bool) (s s' : T.Screen) (w end : World H.State)
      → ui_run H fuel m fmt render v T arrive show_cmd s w ≡ (done (pos 0, s'), end)
      → (idx : ℕ) → idx < length v.config.target
      → Worked H fuel m fmt render v idx (before H fuel m fmt render v idx 0 w)
  unfolding ui_run
  ui_run_zero show_cmd s s' w end e idx h =
      let counted_from : 0 + idx ≡ idx = omega arith in
      subst (λ n. Worked H fuel m fmt render v n (before H fuel m fmt render v idx 0 w))
        counted_from
        (AllWorked-at H fuel m fmt render v 0 idx v.config.target w
          (run-AllWorked show_cmd v.config.target s s' w end e) h)
