-- ===== src/Vmtest/RunOne/Cleanup.antt =====
-- What a target leaves behind: the temporary init script is gone, however its run ends, and the
-- sockets have been removed.
use vmtest.Base.{ℕ, false, Text, Result, ok, err, ◌≡◌, ◌≢◌, refl, ap, ◌∙◌}
use vmtest.Output.{boot_end}
use vmtest.Host.{
  closed, Host, World, Act, Outcome, done, fail, panic, unfinished, caught, continue, ◌>>=◌, pure,
  throw, send, attempt, after, finally, match_result,
}
use vmtest.Host.Inversion.{closed-returned, ignore_error-then}
use vmtest.Qga.Connect.{lift}
use vmtest.Qemu.Args.{Machine}
use vmtest.Qemu.Invocation.{Sockets}
use vmtest.Qemu.Instance.{Qemu, CommandContext}
use vmtest.Qemu.New.{Formats}
use vmtest.Qemu.New.Ownership.{
  Freed, Keeps, FreesNew, Keeps-pure, FreesNew-context, FreesNew-keep, new-FreesNew,
}
use vmtest.Qemu.Run.{drop_init, drop_qemu, run_body, run}
use vmtest.Vmtest.Instance.{Vmtest, setup_target}
use vmtest.Vmtest.RunOne.{setup_qemu, run_one}

module _ (H : Host) where
  -- The host once the three sockets have been removed.
  abbrev pub removed : Sockets → H.State → H.State
  removed socks s =
      (H.remove_file socks.command (H.remove_file socks.qmp (H.remove_file socks.qga s).1).1).1

module _ (H : Host) (fuel : ℕ) (m : Machine) (render : CommandContext → Text) (q : Qemu) where
  drop_qemu_removes :
      (w : World H.State)
      → drop_qemu H fuel m render q w
        ≡ (done tt, record w { host = removed H q.socks w.host; has_init = false })
  unfolding drop_qemu
  drop_qemu_removes w =
      ignore_error-then (H.remove_file q.socks.qga) _ w
      ∙ ignore_error-then (H.remove_file q.socks.qmp) _ _
      ∙ ignore_error-then (H.remove_file q.socks.command) _ _
      ∙ unfold drop_init pure in refl

  -- However what the run does ends, but for a run that has not returned: the result is that of
  -- its body, the last that happens is the removal of the three sockets, each tried whether or not
  -- the others can be removed, and the init script is gone.
  pub run-removed :
      (w : World H.State)
      → (run H fuel m render q w).0 ≢ unfinished
      → run H fuel m render q w ≡ (
        (run_body H fuel m render q w).0,
        record ((run_body H fuel m render q w).1) {
          host = removed H q.socks (run_body H fuel m render q w).1.host;
          has_init = false;
        },
      )
  unfolding run finally
  run-removed w n =
      let (r, w') = run_body H fuel m render q w in
      through r w' (closed-returned r (drop_qemu H fuel m render q w').0 n).0
    where
      through :
          (r : Outcome (Unit {0})) (w' : World H.State)
          → r ≢ unfinished
          → ◌≡◌ {A = Outcome (Unit {0}) × World H.State}
              (
                closed r (drop_qemu H fuel m render q w').0,
                after r (drop_qemu H fuel m render q) w',
              )
              (r, record w' { host = removed H q.socks w'.host; has_init = false })
      through (done a) w' n = ap (λ o. (closed (done a) o.0, o.1)) (drop_qemu_removes w')
      through (fail e) w' n = ap (λ o. (closed (fail e) o.0, o.1)) (drop_qemu_removes w')
      through panic w' n = ap (λ o. (closed panic o.0, o.1)) (drop_qemu_removes w')
      through unfinished w' n = absurd (n refl)

module _ (H : Host) (fuel : ℕ) (m : Machine) (fmt : Formats) (render : CommandContext → Text)
    (v : Vmtest) where
  lift-Keeps : {A : Type 0} (r : Result A) → Keeps {S = H.State} (lift r)
  lift-Keeps (ok a) = Keeps-pure a
  lift-Keeps (err e) = unfold throw in record { at = λ w. refl }

  setup_qemu-FreesNew : (idx : ℕ) → FreesNew (setup_qemu H fuel m fmt render v idx)
  unfolding setup_qemu
  setup_qemu-FreesNew idx =
      FreesNew-keep _ _ (lift-Keeps (setup_target v idx))
        (λ t. FreesNew-context _ _ (new-FreesNew H fmt m t v.base))

  -- If no init script is owned at the start, then none is owned where `run_one` has returned or
  -- panicked: not where the instance cannot be set up, and not behind a run, however it ends.
  pub run_one-has_init :
      (idx : ℕ) (w : World H.State)
      → w.has_init ≡ false
      → (run_one H fuel m fmt render v idx w).0 ≢ unfinished
      → (run_one H fuel m fmt render v idx w).1.has_init ≡ false
  unfolding run_one attempt ◌>>=◌ match_result send
  run_one-has_init idx w h =
      built (setup_qemu H fuel m fmt render v idx w).0 (setup_qemu H fuel m fmt render v idx w).1
        ((setup_qemu-FreesNew idx).at w h)
    where
      next : Result Qemu → Act H.State (Unit {0})
      next r = match_result r (λ q. run H fuel m render q) (λ e. send (boot_end (err e)))

      built :
          (r : Outcome Qemu) (w' : World H.State)
          → Freed r w'
          → (continue (caught r) next w').0 ≢ unfinished
          → (continue (caught r) next w').1.has_init ≡ false
      built (done q) w' f n = ap (λ o. o.1.has_init) (run-removed H fuel m render q w' n)
      built (fail e) w' f n = f
      built panic w' f n = f
      built unfinished w' f n = absurd (n refl)
