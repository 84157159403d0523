-- ===== src/Qemu/Run/Reaped.antt =====
-- QEMU is gone where `Qemu::run` of src/qemu.rs has ended.
use vmtest.Base.{
  ℕ, [], ◌∷◌, ◌++◌, Bool, true, false, not, Text, text, Result, ok, err, ◌≡◌, ◌≢◌, refl, ap, ◌∙◌,
}
use vmtest.Output.{boot_start, boot_end}
use vmtest.Host.{
  Host, World, Act, Outcome, done, fail, panic, unfinished, of_result, caught, with_context,
  continue, ◌>>=◌, pure, panics, pipe_stderr, send, call, attempt, context, match_result, branch,
  finally, on_failure,
}
use vmtest.Qga.Version.{Version}
use vmtest.Qemu.Args.{Machine}
use vmtest.Qemu.Instance.{Qemu, CommandContext, interactive}
use vmtest.Qemu.Boot.{child_cleanup, connect_vm, stream_child_output, boot_vm}
use vmtest.Qemu.Run.{run_booted, run_body, run}
use vmtest.Qemu.Run.Child.{Child, remains, Reaped, on_failure-Reaped, finally-gone}
use vmtest.Vmtest.RunOne.Cleanup.{run-removed}

-- The stdout of the child is a pipe unless the instance is interactive, as `Qemu::new` makes it.
abbrev pub Wired : Qemu → Type 0
Wired q = q.stdout_piped ≡ not (interactive q)

abbrev streaming : {S : Type 0} → Qemu → Act S (Unit {0})
streaming q = branch (interactive q) (pure tt) (stream_child_output q)

streaming-pure : {S : Type 0} (q : Qemu) → Wired q → streaming {S = S} q ≡ pure tt
unfolding stream_child_output
streaming-pure {S} q wired = piped (interactive q) q.stdout_piped wired
  where
    piped :
        (i p : Bool)
        → p ≡ not i
        → ◌≡◌ {A = Act S (Unit {0})} (branch i (pure tt) (branch p (pure tt) panics)) (pure tt)
    piped true p e = unfold branch in refl
    piped false p e = unfold branch in rw e refl

module _ {H : Host} (C : Child H) (fuel : ℕ) (m : Machine) (q : Qemu) where
  abbrev guarded : Act H.State Version
  guarded = on_failure (connect_vm H fuel m q) (child_cleanup H)

  started-Reaped :
      (w : World H.State)
      → Wired q
      → Reaped C ((streaming q >>= λ _. guarded) w).0 ((streaming q >>= λ _. guarded) w).1
  unfolding ◌>>=◌ pure
  started-Reaped w wired = rw (streaming-pure q wired) (on_failure-Reaped C _ w)

  -- Where the boot does not succeed, no QEMU is left.
  boot_vm-Reaped :
      (w : World H.State)
      → Wired q
      → remains C w.host ≡ false
      → Reaped C (boot_vm H fuel m q w).0 (boot_vm H fuel m q w).1
  unfolding boot_vm ◌>>=◌ send context call pipe_stderr
  boot_vm-Reaped w wired h =
      through (H.spawn q.program q.args w.host).0 (H.spawn q.program q.args w.host).1 refl
    where
      start : H.State → World H.State
      start s = record w { host = s; sent = w.sent ++ boot_start ∷ [] }

      spawning : Result (Unit {0}) → Outcome (Unit {0})
      spawning r = with_context (text "Failed to spawn QEMU") (of_result r)

      next : Unit {0} → Act H.State Version
      next x = pipe_stderr >>= λ _. streaming q >>= λ _. guarded

      through :
          (r : Result (Unit {0})) (s : H.State)
          → H.spawn q.program q.args w.host ≡ (r, s)
          → Reaped C
              (continue (spawning r) next (start s)).0
              (continue (spawning r) next (start s)).1
      through (ok u) s e = started-Reaped (record (start s) { has_stderr = true }) wired
      through (err x) s e = C.not_spawned q.program q.args w.host s x e h

module _ {H : Host} (C : Child H) (fuel : ℕ) (m : Machine) (render : CommandContext → Text)
    (q : Qemu) where
  run_body-gone :
      (w : World H.State)
      → Wired q
      → remains C w.host ≡ false
      → (run_body H fuel m render q w).0 ≢ unfinished
      → remains C (run_body H fuel m render q w).1.host ≡ false
  unfolding run_body attempt ◌>>=◌ match_result send
  run_body-gone w wired h n =
      through (boot_vm H fuel m q w).0 (boot_vm H fuel m q w).1
        (boot_vm-Reaped C fuel m q w wired h) n
    where
      next : Result Version → Act H.State (Unit {0})
      next r =
          match_result r
            (λ version. finally (run_booted H fuel m render q version) (child_cleanup H))
            (λ e. send (boot_end (err e)))

      through :
          (r : Outcome Version) (w' : World H.State)
          → Reaped C r w'
          → (continue (caught r) next w').0 ≢ unfinished
          → remains C (continue (caught r) next w').1.host ≡ false
      through (done version) w' reaped n =
          finally-gone C (run_booted H fuel m render q version) w' n
      through (fail e) w' reaped n = reaped
      through panic w' reaped n = reaped
      through unfinished w' reaped n = absurd (n refl)

  -- If no child runs at the start, and the stdout of the instance is as `Qemu::new` makes it, then
  -- no child runs where the run has ended, be it by a result or a panic, unless an inspection of it
  -- or a wait for it has failed.
  pub run-gone :
      (w : World H.State)
      → Wired q
      → remains C w.host ≡ false
      → (run H fuel m render q w).0 ≢ unfinished
      → remains C (run H fuel m render q w).1.host ≡ false
  run-gone w wired h n =
      let e = run-removed H fuel m render q w n in
      let gone = run_body-gone w wired h (λ stuck. n (ap (λ r. r.0) e ∙ stuck)) in
      ap (λ r. remains C r.1.host) e
      ∙ C.file_removed q.socks.command _
          (C.file_removed q.socks.qmp _ (C.file_removed q.socks.qga _ gone))
