-- ===== src/Qemu/Run/Protocol.antt =====
-- The updates of a run follow the state machine that `Output` documents.
use vmtest.Base.{
  ℕ, List, [], some, true, false, Text, Error, Result, ok, err, ◌≡◌, refl, sym, ap, ◌⊎◌, inl, inr,
}
use mathlib.Core.Path.{subst}
use vmtest.Base.Integers.{ℤ}
use vmtest.Config.{Mount}
use vmtest.Output.{Output, command_end, setup_end, boot_end}
use vmtest.Output.Order.{
  Phase, idle, booting, booted, setting_up, ready, running, finished, failed, follow,
}
use vmtest.Host.{
  blocking, on_exit, Host, World, attempt, call, ignore_error, match_result, ◌>>◌, pure, send,
  finally,
}
use vmtest.Host.Sends.{SendsOnly-pipe_stderr, Sent-refl, SendsOnly, sends_rules}
use vmtest.Host.Moves.{
  Moves, At, Ends, Moves-pure, Moves-panics, Moves-context, Moves-branch, Moves-finally,
  Moves-on_failure, Moves-stay, Moves-send,
}
use vmtest.Host.Moves.Chain.{Moves-bind, Moves-then, Moves-match, Moves-ignore_error, Moves-tried}
use vmtest.Qga.Version.{Version}
use vmtest.Qemu.Args.{Machine, shared_9p_fs_mount_path, shared_9p_fs_mount_tag}
use vmtest.Qemu.Instance.{Qemu, CommandContext, interactive}
use vmtest.Qemu.Boot.{connect_vm, boot_vm, child_cleanup}
use vmtest.Qemu.Boot.Updates.{
  stream_child_output-SendsOnly, new-SendsOnly, connect_to_uds-SendsOnly, wait_for_qemu-SendsOnly,
  child_cleanup-SendsOnly, or_with_stderr-SendsOnly,
}
use vmtest.Guest.Updates.{sync-SendsOnly, mount_in_guest-SendsOnly, mount_all-SendsOnly}
use vmtest.Guest.Mount.{setup_vm, sync}
use vmtest.Guest.Command.Updates.{run_command-SendsOnly}
use vmtest.Qemu.Run.{
  expect, drop_init, shut_down, run_target, run_ready, run_booted, drop_qemu, run_body, run,
}

module _ (H : Host) (fuel : ℕ) (m : Machine) where
  -- A failed boot has sent `BootStart` alone.
  connect_vm-Moves :
      (q : Qemu) → Moves booting (connect_vm H fuel m q) (At booted) (λ p. p ≡ booting)
  unfolding connect_vm
  connect_vm-Moves q =
      Moves-then booting booting _ _
        (Moves-stay booting _ (search (sends_rules, wait_for_qemu-SendsOnly)) refl)
        (λ _.
          Moves-then booting booting _ _
            (Moves-stay booting _ (search (or_with_stderr-SendsOnly, connect_to_uds-SendsOnly))
              refl)
            (λ _.
              Moves-then booting booting _ _ (Moves-stay booting _ (search sends_rules) refl) (λ _.
                Moves-then booting booting _ _
                  (Moves-stay booting _ (search (sends_rules, or_with_stderr-SendsOnly)) refl)
                  (λ _.
                    Moves-then booting booting _ _
                      (Moves-stay booting _ (search (sends_rules, new-SendsOnly)) refl)
                      (λ version.
                        Moves-then booting booted _ _ (Moves-send booting booted _ refl refl)
                          (λ _. Moves-pure booted version refl))))))

  boot_vm-Moves : (q : Qemu) → Moves idle (boot_vm H fuel m q) (At booted) (λ p. p ≡ booting)
  unfolding boot_vm
  boot_vm-Moves q = Moves-then idle booting _ _ (Moves-send idle booting _ refl refl) (λ _.
      Moves-then booting booting _ _ (Moves-stay booting _ (search sends_rules) refl) (λ _.
        Moves-then booting booting _ _ (Moves-stay booting _ SendsOnly-pipe_stderr refl) (λ _.
          Moves-then booting booting _ _
            (Moves-stay booting _ (search (sends_rules, stream_child_output-SendsOnly)) refl)
            (λ _.
              Moves-on_failure booting _ _ (connect_vm-Moves q) (λ p. child_cleanup-SendsOnly H)))))

  -- A failed setup has sent its start, and then output alone.
  setup_vm-Moves :
      (version : Version) (mounts : List (Text × Mount))
      → Moves booted (setup_vm H fuel version m mounts) (At ready) (λ p. p ≡ setting_up)
  unfolding setup_vm
  setup_vm-Moves version mounts =
      Moves-then booted setting_up _ _ (Moves-send booted setting_up _ refl refl) (λ _.
        Moves-then setting_up setting_up _ _
          (Moves-context setting_up _ _ (
            Moves-stay setting_up _
              (mount_in_guest-SendsOnly H fuel version (λ line k. refl) shared_9p_fs_mount_path
                shared_9p_fs_mount_tag false)
              refl))
          (λ _.
            Moves-then setting_up setting_up _ _
              (Moves-stay setting_up _
                (mount_all-SendsOnly H fuel version (λ line k. refl) m mounts) refl)
              (λ _. Moves-send setting_up ready _ refl refl)))

-- How a run may end: with a `CommandEnd`, with the `Err` of an earlier stage, or, where the
-- target is interactive, after its setup.
abbrev pub Closed : Qemu → Phase → Type 0
Closed q p = (p ≡ finished) ⊎ ((p ≡ failed) ⊎ ((p ≡ ready) × (interactive q ≡ true)))

pub drop_init-SendsOnly : {S : Type 0} {P : Output → Type 0} → SendsOnly P (drop_init {S = S})
unfolding drop_init pure
drop_init-SendsOnly {P} = record { at = λ w. Sent-refl P w.sent }

abbrev pub Never : Phase → Type 0
Never p = ⊥

module _ (H : Host) (fuel : ℕ) (m : Machine) (render : CommandContext → Text) (q : Qemu) where
  shut_down-Moves :
      (p : Phase) → Closed q p → Moves p (shut_down H fuel m render q) (λ _. Closed q) Never
  unfolding shut_down match_result
  shut_down-Moves p c = Moves-then p p _ _ (Moves-tried p _ (search sends_rules)) quitted
    where
      quitted :
          (result : Result (Unit {0}))
          → Moves p
              (match_result result
                (λ _. ignore_error (blocking (H.hangs on_exit) (call H.wait)))
                (λ e. pure tt))
              (λ _. Closed q)
              Never
      quitted (ok _) =
          Moves-bind p (attempt (blocking (H.hangs on_exit) (call H.wait))) _
            (Moves-tried p _ (search sends_rules))
            (λ _ r e. Moves-pure r tt (subst (Closed q) (sym e) c))
      quitted (err x) = Moves-pure p tt c

  -- The command ends the run, with its exit code or with an error.
  run_target-Moves :
      (version : Version) → Moves ready (run_target H fuel m render q version) (λ _. Closed q) Never
  unfolding run_target
  run_target-Moves version =
      Moves-then ready running _ _ (Moves-send ready running _ refl refl) (λ _.
        Moves-then running running _ _
          (Moves-tried running _ (search (sends_rules, run_command-SendsOnly))) end)
    where
      closing :
          (p : Phase)
          → Closed q p
          → Moves p
              (ignore_error (sync H fuel version) >> shut_down H fuel m render q)
              (λ _. Closed q)
              Never
      closing p c =
          Moves-then p p _ _ (Moves-ignore_error p _ (sync-SendsOnly H fuel version))
            (λ _. shut_down-Moves p c)

      end :
          (result : Result ℤ)
          → Moves running
              (send (command_end result)
                >> (ignore_error (sync H fuel version) >> shut_down H fuel m render q))
              (λ _. Closed q)
              Never
      end (ok rc) =
          Moves-then running finished _ _ (Moves-send running finished _ refl refl)
            (λ _. closing finished (inl refl))
      end (err e) =
          Moves-then running failed _ _ (Moves-send running failed _ refl refl)
            (λ _. closing failed (inr (inl refl)))

  drop_init-Moves : {F : Phase → Type 0} (p : Phase) → Moves p (drop_init {S = H.State}) (At p) F
  unfolding drop_init pure
  drop_init-Moves p = record { at = λ w h. (p, h, refl) }

  -- An interactive target stays ready: QEMU is waited for, or vmtest panics.
  wait-Moves :
      interactive q ≡ true
      → Moves ready (expect (blocking (H.hangs on_exit) (call H.wait))) (λ _. Closed q) Never
  unfolding expect
  wait-Moves i =
      Moves-match {D = At ready} {G = λ p. p ≡ ready} ready _ _ _
        (Moves-stay ready _ (search sends_rules) refl) (λ _ p e. Moves-pure p tt (inr (inr (e, i))))
        (λ _ p e. Moves-panics p)

  run_ready-Moves :
      (version : Version) → Moves ready (run_ready H fuel m render q version) (λ _. Closed q) Never
  unfolding run_ready
  run_ready-Moves version = Moves-then ready ready _ _ (drop_init-Moves ready) (λ _.
      Moves-branch ready (interactive q) _ _ (λ i. wait-Moves i) (λ _. run_target-Moves version))

  -- A stage that fails after its start ends the run.
  setup_failed :
      (e : Error) (p : Phase)
      → p ≡ setting_up
      → Moves p (send {S = H.State} (setup_end (err e))) (λ _. Closed q) Never
  setup_failed e p h =
      subst (λ x. Moves {S = H.State} x (send (setup_end (err e))) (λ _. Closed q) Never) (sym h)
        (Moves-send setting_up failed _ refl (inr (inl refl)))

  run_booted-Moves :
      (version : Version)
      → Moves booted (run_booted H fuel m render q version) (λ _. Closed q) Never
  unfolding run_booted
  run_booted-Moves version =
      Moves-match booted _ _ _ (setup_vm-Moves H fuel m version q.mounts)
        (λ _ p e.
          subst (λ x. Moves x (run_ready H fuel m render q version) (λ _. Closed q) Never) (sym e)
            (run_ready-Moves version))
        setup_failed

  boot_failed :
      (e : Error) (p : Phase)
      → p ≡ booting
      → Moves p (send {S = H.State} (boot_end (err e))) (λ _. Closed q) Never
  boot_failed e p h =
      subst (λ x. Moves {S = H.State} x (send (boot_end (err e))) (λ _. Closed q) Never) (sym h)
        (Moves-send booting failed _ refl (inr (inl refl)))

  run_body-Moves : Moves idle (run_body H fuel m render q) (λ _. Closed q) Never
  unfolding run_body
  run_body-Moves =
      Moves-match idle _ _ _ (boot_vm-Moves H fuel m q)
        (λ version p e.
          subst
            (λ x.
              Moves x (finally (run_booted H fuel m render q version) (child_cleanup H))
                (λ _. Closed q) Never)
            (sym e)
            (Moves-finally booted _ _ (run_booted-Moves version) (λ r. child_cleanup-SendsOnly H)))
        boot_failed

  pub drop_qemu-SendsOnly : {P : Output → Type 0} → SendsOnly P (drop_qemu H fuel m render q)
  unfolding drop_qemu
  drop_qemu-SendsOnly = search (sends_rules, drop_init-SendsOnly) depth 10

  pub run-Moves : Moves idle (run H fuel m render q) (λ _. Closed q) Never
  unfolding run
  run-Moves = Moves-finally idle _ _ run_body-Moves (λ p. drop_qemu-SendsOnly)

  -- Of a run whose channel is empty at the start, the updates follow the state machine, however
  -- the run ends. If it returns, then they end with a `CommandEnd`, with the `Err` of an
  -- earlier stage, or, where the target is interactive, with the end of a successful setup; and
  -- it never returns an error.
  run-follow :
      (w : World H.State)
      → w.sent ≡ []
      → (p : Phase) × (follow idle (run H fuel m render q w).1.sent ≡ some p)
        × Ends (λ _. Closed q) Never (run H fuel m render q w).0 p
  run-follow w h = run-Moves.at w (ap (follow idle) h)
