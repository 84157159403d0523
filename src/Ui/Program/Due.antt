-- ===== src/Ui/Program/Due.antt =====
-- What `Ui::run` makes of its targets, by what their runs send.
pub mod Result
use vmtest.Base.{
  ℕ, suc, ◌+◌, List, [], ◌∷◌, Option, none, some, Bool, true, false, Text, length, get_or, ◌==◌,
  nat_eq, ◌≡◌, refl, ap, ◌∙◌, arith, if◌then◌else◌,
}
use vmtest.Base.Integers.{ℤ, pos}
use vmtest.Config.{Target}
use vmtest.Output.{Output}
use vmtest.Output.Order.{Phase, idle, follow}
use vmtest.Output.Interleave.{Interleaves}
use vmtest.Host.{
  Host, World, Act, Outcome, done, fail, panic, unfinished, continue, ◌>>=◌, ◌>>◌, pure, panics,
  match_option, branch,
}
use vmtest.Host.Moves.{Ends}
use vmtest.Qemu.Args.{Machine}
use vmtest.Qemu.Instance.{CommandContext}
use vmtest.Qemu.New.{Formats}
use vmtest.Qemu.Run.Protocol.{Never}
use vmtest.Guest.Streams.{boot_updates, command_updates}
use vmtest.Vmtest.Instance.{Vmtest}
use vmtest.Vmtest.RunOne.{run_one}
use vmtest.Vmtest.RunOne.Protocol.{ClosedOne, run_one-follow}
use vmtest.Vmtest.Session.{run_one-target_ui}
use vmtest.Ui.Terminal.{Term, Writable}
use vmtest.Ui.Target.{target_ui}
use vmtest.Ui.Target.Verdict.{verdict}
use vmtest.Ui.Target.Outcome.{Reported, verdict-Reported}
use vmtest.Ui.Run.{Session, count_failure, ex_unavailable}
use vmtest.Ui.Run.Count.{due, failures, passed}
use vmtest.Ui.Program.{channel, received, updates_of, ui_loop, ui_run}

-- The updates of a run arrive among lines that the two threads stream, whatever these read.
pub record Arrives (sent zs : List Output) : Type 0 where
  pub boot_output : Text
  pub command_output : Text
  pub lines : List Output
  pub streamed : Interleaves (boot_updates boot_output) (command_updates command_output) lines
  pub mixed : Interleaves sent lines zs

module _ (H : Host) (fuel : ℕ) (m : Machine) (fmt : Formats) (render : CommandContext → Text)
    (v : Vmtest) where
  -- The runs of the targets, one after the other, without a user interface.
  unfoldable pub sessions : ℕ → List Target → Act H.State (List Session)
  sessions idx [] = pure []
  sessions idx (t ∷ ts) = do
    updates ← updates_of H fuel m fmt render v idx
    rest ← sessions (suc idx) ts
    pure ((t.name, updates) ∷ rest)

  -- Each target was reported by the phase in which its run ended.
  abbrev pub Judged : ℕ → List Target → List Session → Type 0
  Judged idx [] [] = Unit
  Judged idx [] (x ∷ l) = ⊥
  Judged idx (t ∷ ts) [] = ⊥
  Judged idx (t ∷ ts) ((name, updates) ∷ l) =
      (name ≡ t.name)
      × ((p : Phase) × (follow idle updates ≡ some p)
          × Reported p (verdict updates)
          × ClosedOne v idx p)
      × Judged (suc idx) ts l

  -- The program returns what is due for the sessions, and panics, or does not return, only where a
  -- run does.
  abbrev pub Refines :
      {A : Type 0}
      → ℕ
      → List Target
      → (List Session → A → Type 0)
      → Outcome (List Session)
      → Outcome A
      → Type 0
  Refines {A} idx ts P (done l) r = Judged idx ts l × ((a : A) × (r ≡ done a) × P l a)
  Refines idx ts P (fail e) r = ⊥
  Refines idx ts P panic r = r ≡ panic
  Refines idx ts P unfinished r = r ≡ unfinished

module _ (H : Host) (fuel : ℕ) (m : Machine) (fmt : Formats) (render : CommandContext → Text)
    (v : Vmtest) (T : Term) (W : Writable T) (arrive : ℕ → List Output → List Output)
    (arrival : (idx : ℕ) (us : List Output) → Arrives us (arrive idx us)) where
  -- The user interface shows the updates, and returns what they settle.
  Shown : ℕ → Outcome (List Output) → Type 0
  Shown idx (done us) =
      ((name : Text) (show_cmd : Bool) (s : T.Screen)
        → (s' : T.Screen) × (target_ui T name show_cmd (arrive idx us) s ≡ some (verdict us, s')))
      × ((p : Phase) × (follow idle us ≡ some p) × Reported p (verdict us) × ClosedOne v idx p)
  Shown idx (fail e) = ⊥
  Shown idx panic = Unit
  Shown idx unfinished = Unit

  closed-Shown :
      (idx : ℕ) (r : Outcome (Unit {0})) (w : World H.State) (p : Phase)
      → ((name : Text) (show_cmd : Bool) (s : T.Screen)
          → (s' : T.Screen) × (target_ui T name show_cmd (arrive idx w.sent) s
              ≡ some (verdict w.sent, s')))
      → follow idle w.sent ≡ some p
      → Reported p (verdict w.sent)
      → Ends (λ _. ClosedOne v idx) Never r p
      → Shown idx (continue r (λ _. received) w).0
  unfolding received pure Shown
  closed-Shown idx (done _) w p shown followed reported closed =
      (shown, (p, followed, reported, closed))
  closed-Shown idx (fail e) w p shown followed reported never = never
  closed-Shown idx panic w p shown followed reported any = tt
  closed-Shown idx unfinished w p shown followed reported any = tt

  updates_of-Shown :
      (idx : ℕ) (w : World H.State) → Shown idx (updates_of H fuel m fmt render v idx w).0
  unfolding updates_of channel pure ◌>>=◌
  updates_of-Shown idx w =
      let start : World H.State = record w { sent = [] } in
      let after = (run_one H fuel m fmt render v idx start).1 in
      let a = arrival idx after.sent in
      let (p, followed, ends) = run_one-follow H fuel m fmt render v idx start refl in
      closed-Shown idx (run_one H fuel m fmt render v idx start).0 after p
        (λ name show_cmd s.
          let (s', shown, _) =
            run_one-target_ui H fuel m fmt render v T W idx start a.boot_output a.command_output
              a.lines (arrive idx after.sent) name show_cmd s refl a.streamed a.mixed in
          (s', shown))
        followed (verdict-Reported p after.sent followed) ends

  Due : ℕ → List Session → ℤ × T.Screen → Type 0
  Due failed l (rc, s) = rc ≡ pos (failed + failures l)

  -- What follows the updates of one target, in the runs alone and in the loop.
  abbrev after_run : ℕ → Target → List Target → List Output → Act H.State (List Session)
  after_run idx t ts us =
      sessions H fuel m fmt render v (suc idx) ts >>= λ rest. pure ((t.name, us) ∷ rest)

  abbrev after_shown : Bool → ℕ → ℕ → List Target → Option ℤ × T.Screen → Act H.State (ℤ × T.Screen)
  after_shown show_cmd failed idx ts (rc, s) =
      ui_loop H fuel m fmt render v T arrive show_cmd false
        (count_failure failed (get_or rc ex_unavailable)) (suc idx) ts s

  one_more :
      (failed idx : ℕ) (t : Target) (ts : List Target) (us : List Output)
      (o : Outcome (List Session) × World H.State) (r : Outcome (ℤ × T.Screen))
      → ((p : Phase) × (follow idle us ≡ some p) × Reported p (verdict us) × ClosedOne v idx p)
      → Refines H fuel m fmt render v
          (suc idx)
          ts
          (Due (count_failure failed (get_or (verdict us) ex_unavailable)))
          o.0
          r
      → Refines H fuel m fmt render v idx
          (t ∷ ts)
          (Due failed)
          (continue o.0 (λ rest. pure ((t.name, us) ∷ rest)) o.1).0
          r
  unfolding Due pure count_failure
  one_more failed idx t ts us (done l, w) r closed (judged, ((rc, s), e, counted)) =
      ((refl, closed, judged), ((rc, s), e, counted ∙ ap pos (ground arith)))
  one_more failed idx t ts us (fail e, w) r closed never = never
  one_more failed idx t ts us (panic, w) r closed e = e
  one_more failed idx t ts us (unfinished, w) r closed e = e

  Shown-more :
      (show_cmd : Bool) (failed idx : ℕ) (t : Target) (ts : List Target) (s : T.Screen)
      (o : Outcome (List Output)) (w : World H.State)
      → Shown idx o
      → ((failed' : ℕ) (s' : T.Screen) (w' : World H.State)
          → Refines H fuel m fmt render v
              (suc idx)
              ts
              (Due failed')
              (sessions H fuel m fmt render v (suc idx) ts w').0
              (ui_loop H fuel m fmt render v T arrive show_cmd false failed' (suc idx) ts s' w').0)
      → Refines H fuel m fmt render v idx
          (t ∷ ts)
          (Due failed)
          (continue o (after_run idx t ts) w).0
          (continue o
            (λ us.
              match_option (target_ui T t.name show_cmd (arrive idx us) s) panics pure
              >>= after_shown show_cmd failed idx ts)
            w).0
  unfolding pure ◌>>=◌ match_option Shown
  Shown-more show_cmd failed idx t ts s (done us) w (shown, closed) again =
      let (s', e) = shown t.name show_cmd s in
      let failed' = count_failure failed (get_or (verdict us) ex_unavailable) in
      rw e (
        one_more failed idx t ts us (sessions H fuel m fmt render v (suc idx) ts w) _ closed
          (again failed' s' w))
  Shown-more show_cmd failed idx t ts s (fail e) w never again = never
  Shown-more show_cmd failed idx t ts s panic w any again = refl
  Shown-more show_cmd failed idx t ts s unfinished w any again = refl

  loop-Refines :
      (show_cmd : Bool) (failed idx : ℕ) (ts : List Target) (s : T.Screen) (w : World H.State)
      → Refines H fuel m fmt render v idx ts
          (Due failed)
          (sessions H fuel m fmt render v idx ts w).0
          (ui_loop H fuel m fmt render v T arrive show_cmd false failed idx ts s w).0
  unfolding sessions ui_loop pure Due ◌>>=◌ branch
  loop-Refines show_cmd failed idx [] s w = (tt, ((pos failed, s), refl, ap pos (omega arith)))
  loop-Refines show_cmd failed idx (t ∷ ts) s w =
      Shown-more show_cmd failed idx t ts s (updates_of H fuel m fmt render v idx w).0
        (updates_of H fuel m fmt render v idx w).1 (updates_of-Shown idx w)
        (λ failed' s' w'. loop-Refines show_cmd failed' (suc idx) ts s' w')
