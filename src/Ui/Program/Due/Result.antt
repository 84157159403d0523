-- ===== src/Ui/Program/Due/Result.antt =====
-- The result of `Ui::run`, for no target, for one, and for more.
use vmtest.Base.{
  ℕ, List, [], ◌∷◌, Bool, false, Text, length, get_or, ◌==◌, nat_eq, ◌≡◌, refl, ap, ◌∙◌, arith,
}
use vmtest.Base.Integers.{ℤ, pos}
use vmtest.Config.{Target}
use vmtest.Output.{Output}
use vmtest.Host.{
  Host, World, Outcome, done, fail, panic, unfinished, continue, ◌>>=◌, pure, panics, match_option,
  branch,
}
use vmtest.Qemu.Args.{Machine}
use vmtest.Qemu.Instance.{CommandContext}
use vmtest.Qemu.New.{Formats}
use vmtest.Vmtest.Instance.{Vmtest}
use vmtest.Ui.Terminal.{Term, Writable}
use vmtest.Ui.Target.{target_ui}
use vmtest.Ui.Target.Verdict.{verdict}
use vmtest.Ui.Run.{Session, ex_unavailable}
use vmtest.Ui.Run.Count.{due, two_not_one}
use vmtest.Ui.Program.{updates_of, ui_loop, ui_run}
use vmtest.Ui.Program.Due.{Arrives, sessions, Refines, Due, Shown, updates_of-Shown, loop-Refines}

module _ (H : Host) (fuel : ℕ) (m : Machine) (fmt : Formats) (render : CommandContext → Text)
    (v : Vmtest) (T : Term) (W : Writable T) (arrive : ℕ → List Output → List Output)
    (arrival : (idx : ℕ) (us : List Output) → Arrives us (arrive idx us)) where
  -- The result is the one that is due for the sessions.
  abbrev pub IsDue : List Session → ℤ × T.Screen → Type 0
  IsDue l (rc, s) = rc ≡ due l

  counted-IsDue :
      (ts : List Target) (o : Outcome (List Session)) (r : Outcome (ℤ × T.Screen))
      → (length ts == 1) ≡ false
      → Refines H fuel m fmt render v 0 ts (Due H fuel m fmt render v T W arrive arrival 0) o r
      → Refines H fuel m fmt render v 0 ts IsDue o r
  unfolding Due
  counted-IsDue [] (done []) r many (judged, ((rc, s), e, counted)) =
      (judged, ((rc, s), e, counted))
  counted-IsDue [] (done (x ∷ l)) r many h = absurd h.0
  counted-IsDue (t ∷ []) o r many h = absurd (cc many)
  counted-IsDue (a ∷ b ∷ ts) (done []) r many h = absurd h.0
  counted-IsDue (a ∷ b ∷ ts) (done (x ∷ [])) r many h = absurd h.0.2
  counted-IsDue (a ∷ b ∷ ts) (done (x ∷ y ∷ l)) r many (judged, ((rc, s), e, counted)) =
      (judged, ((rc, s), e, counted ∙ ap pos (omega arith)))
  counted-IsDue ts (fail e) r many h = h
  counted-IsDue ts panic r many h = h
  counted-IsDue ts unfinished r many h = h

  -- What follows the updates of the only target.
  single-IsDue :
      (show_cmd : Bool) (t : Target) (s : T.Screen) (o : Outcome (List Output)) (w : World H.State)
      → Shown H fuel m fmt render v T W arrive arrival 0 o
      → Refines H fuel m fmt render v 0
          (t ∷ [])
          IsDue
          (continue o
            (λ us. sessions H fuel m fmt render v 1 [] >>= λ rest. pure ((t.name, us) ∷ rest))
            w).0
          (continue o
            (λ us. match_option (target_ui T t.name show_cmd (arrive 0 us) s) panics pure >>= λ x.
              pure (get_or x.0 ex_unavailable, x.1))
            w).0
  unfolding pure ◌>>=◌ match_option sessions Shown
  single-IsDue show_cmd t s (done us) w (shown, closed) =
      let (s', e) = shown t.name show_cmd s in
      rw e ((refl, closed, tt), ((get_or (verdict us) ex_unavailable, s'), refl, refl))
  single-IsDue show_cmd t s (fail e) w never = never
  single-IsDue show_cmd t s panic w any = refl
  single-IsDue show_cmd t s unfinished w any = refl

  loop-IsDue :
      (show_cmd : Bool) (ts : List Target) (s : T.Screen) (w : World H.State)
      → Refines H fuel m fmt render v 0 ts IsDue
          (sessions H fuel m fmt render v 0 ts w).0
          (ui_loop H fuel m fmt render v T arrive show_cmd (length ts == 1) 0 0 ts s w).0
  loop-IsDue show_cmd [] s w =
      counted-IsDue [] _ _ refl
        (loop-Refines H fuel m fmt render v T W arrive arrival show_cmd 0 0 [] s w)
  loop-IsDue show_cmd (t ∷ []) s w =
      unfold sessions ui_loop ◌>>=◌ branch in
      single-IsDue show_cmd t s (updates_of H fuel m fmt render v 0 w).0
        (updates_of H fuel m fmt render v 0 w).1
        (updates_of-Shown H fuel m fmt render v T W arrive arrival 0 w)
  loop-IsDue show_cmd (a ∷ b ∷ ts) s w =
      let many = two_not_one (length ts) in
      rw many (
        counted-IsDue (a ∷ b ∷ ts) _ _ many
          (loop-Refines H fuel m fmt render v T W arrive arrival show_cmd 0 0 (a ∷ b ∷ ts) s w))

  -- Where no write to the terminal fails, and however the updates arrive among the lines that are
  -- streamed: `Ui::run` over `run_one` is the sequence of the runs of the targets, and then the
  -- result that is due for what they sent: the exit code of a single target, 69 if its command was
  -- not run, and else the number of targets that fail. The updates of each target follow the state
  -- machine to a phase that ends a run, and its result is the one that this phase reports. The user
  -- interface adds no panic, and does not keep the program from returning; and no run returns an
  -- error.
  pub ui_run-Refines :
      (show_cmd : Bool) (s : T.Screen) (w : World H.State)
      → Refines H fuel m fmt render v 0 v.config.target IsDue
          (sessions H fuel m fmt render v 0 v.config.target w).0
          (ui_run H fuel m fmt render v T arrive show_cmd s w).0
  unfolding ui_run
  ui_run-Refines show_cmd s w = loop-IsDue show_cmd v.config.target s w
