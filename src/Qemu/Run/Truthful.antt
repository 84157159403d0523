-- ===== src/Qemu/Run/Truthful.antt =====
-- The exit code that `Qemu::run` of src/qemu.rs reports is the one of the target's command.
use vmtest.Base.{◌++◌, ℕ, [], ◌∷◌, false, Text, text, Error, Result, ok, err, ◌≡◌}
use vmtest.Base.Integers.{ℤ}
use vmtest.Output.{
  Output, boot_start, boot_end, setup_start, setup, setup_end, command_start, command, command_end,
}
use mathlib.Core.Path.{subst}
use vmtest.Host.{
  blocking, on_exit, match_result, pure, Host, World, Act, done, ◌>>=◌, ◌>>◌, call, context, send,
  attempt, finally, ignore_error,
}
use vmtest.Host.Inversion.{context-inv, attempt-inv}
use vmtest.Host.Sends.{
  SendsOnly-pipe_stderr, Sent, Sent-finally, Sent-branch, SendsOnly-attempt, SendsOnly,
  SendsOnly-send, SendsOnly-bind, Sent-bind, SendsOnly-pure, SendsOnly-context,
  SendsOnly-on_failure, sends_rules,
}
use vmtest.Qga.Version.{Version}
use vmtest.Qemu.Args.{Machine, shared_9p_fs_mount_path, shared_9p_fs_mount_tag}
use vmtest.Qemu.Instance.{interactive, Qemu, CommandContext}
use vmtest.Qemu.Boot.{child_cleanup, connect_vm, boot_vm}
use vmtest.Qemu.Boot.Updates.{
  stream_child_output-SendsOnly, new-SendsOnly, connect_to_uds-SendsOnly, wait_for_qemu-SendsOnly,
  child_cleanup-SendsOnly, or_with_stderr-SendsOnly,
}
use vmtest.Guest.Updates.{Makes, sync-SendsOnly, mount_in_guest-SendsOnly, mount_all-SendsOnly}
use vmtest.Guest.Mount.{setup_vm, sync}
use vmtest.Guest.Command.{run_command}
use vmtest.Guest.Command.Updates.{run_command-SendsOnly}
use vmtest.Qemu.Run.{
  drop_qemu, drop_init, expect, shut_down, run_target, run_ready, run_booted, run_body, run,
}
use vmtest.Qemu.Run.Protocol.{drop_init-SendsOnly, drop_qemu-SendsOnly}
use vmtest.Guest.Command.Ran.{Ran, run_command-Ran}

module _ (H : Host) (fuel : ℕ) (m : Machine) (render : CommandContext → Text) (q : Qemu) where
  -- The world in which the command starts.
  abbrev starting_in : World H.State → World H.State
  starting_in w = record w { has_init = false; sent = w.sent ++ command_start ∷ [] }

  -- From the world `w` on: QEMU has booted, the guest has been set up, and the command has run.
  pub RanFrom : World H.State → ℤ → Type 0
  RanFrom w rc =
      (version : Version) × (w₁ w₂ : World H.State) × (boot_vm H fuel m q w ≡ (done version, w₁))
      × (setup_vm H fuel version m q.mounts w₁ ≡ (done tt, w₂))
      × Ran H fuel render q version (starting_in w₂) rc

  -- Of exit codes, the property allows those of the command; of other updates, all whose text has
  -- no line feed.
  pub record Allows (P : Output → Type 0) (w : World H.State) : Type 0 where
    pub booting : P boot_start
    pub booted : (r : Result (Unit {0})) → P (boot_end r)
    pub setting_up : P setup_start
    pub mounting : Makes P setup
    pub set_up : (r : Result (Unit {0})) → P (setup_end r)
    pub starting : P command_start
    pub printing : Makes P command
    pub not_run : (e : Error) → P (command_end (err e))
    pub exited : (rc : ℤ) → RanFrom w rc → P (command_end (ok rc))

module _ (H : Host) (fuel : ℕ) (m : Machine) (render : CommandContext → Text) (q : Qemu)
    {P : Output → Type 0} (w : World H.State) (allows : Allows H fuel m render q P w) where
  abbrev Only : {A : Type 0} → Act H.State A → Type 0
  Only = SendsOnly P

  -- In one world, whatever the outcome is.
  abbrev OnlyAt : {A : Type 0} → Act H.State A → World H.State → Type 0
  OnlyAt a v = Sent P v.sent (a v).1.sent

  sending-Only : (msg : Output) → P msg → Only (send msg)
  sending-Only msg h = SendsOnly-send msg h

  abbrev reporting : Version → Act H.State ℤ
  reporting version = context (text "Failed to run command") (run_command H fuel render version q)

  shut_down-Only : Only (shut_down H fuel m render q)
  unfolding shut_down
  shut_down-Only = search sends_rules depth 8

  closing-Only :
      (version : Version) → Only (ignore_error (sync H fuel version) >> shut_down H fuel m render q)
  closing-Only version = search (sends_rules, sync-SendsOnly, shut_down-Only) depth 8

  sending_lines : (version : Version) (q' : Qemu) → Only (run_command H fuel render version q')
  sending_lines version q' = run_command-SendsOnly H fuel render version allows.printing q'

  -- What is reported of the command, which runs from the world `v` on.
  module _ (version : Version) (v : World H.State)
      (exits : (rc : ℤ) → Ran H fuel render q version v rc → P (command_end (ok rc))) where
    result_allowed :
        (result : Result ℤ) (v' : World H.State)
        → attempt (reporting version) v ≡ (done result, v')
        → P (command_end result)
    result_allowed (err e) v' h = allows.not_run e
    result_allowed (ok rc) v' h = exits rc (
        run_command-Ran H fuel render q version v v' rc (
          context-inv (text "Failed to run command") _ v rc v'
            (attempt-inv (reporting version) v rc v' h)))

    reported-Only :
        OnlyAt
          (attempt (reporting version) >>= λ result.
            send (command_end result)
            >> (ignore_error (sync H fuel version) >> shut_down H fuel m render q))
          v
    reported-Only =
        Sent-bind (attempt (reporting version)) _ v
          ((SendsOnly-attempt _ (SendsOnly-context _ _ (sending_lines version q))).at v)
          (λ result v' h.
            (SendsOnly-bind _ _ (sending-Only (command_end result) (result_allowed result v' h))
                (λ _. closing-Only version)).at
              v')

  -- The exit codes of a command that starts in the world `v` are allowed.
  abbrev Exits : Version → World H.State → Type 0
  Exits version v = (rc : ℤ) → Ran H fuel render q version v rc → P (command_end (ok rc))

  run_target-Only :
      (version : Version) (v : World H.State)
      → Exits version (record v { sent = v.sent ++ command_start ∷ [] })
      → OnlyAt (run_target H fuel m render q version) v
  unfolding run_target
  run_target-Only version v exits =
      Sent-bind (send command_start) _ v ((sending-Only command_start allows.starting).at v)
        (λ _ v' e.
          let started : record v { sent = v.sent ++ command_start ∷ [] } ≡ v' =
            unfold send in cc e in
          reported-Only version v' (subst (Exits version) started exits))

  run_ready-Only :
      (version : Version) (v : World H.State)
      → Exits version (starting_in H fuel m render q v)
      → OnlyAt (run_ready H fuel m render q version) v
  unfolding run_ready expect
  run_ready-Only version v exits = Sent-bind drop_init _ v (drop_init-SendsOnly.at v) (λ _ v' e.
      let dropped : record v { has_init = false } ≡ v' = unfold drop_init pure in cc e in
      let waiting : Only (expect (blocking (H.hangs on_exit) (call H.wait))) =
        unfold expect in search sends_rules depth 8 in
      Sent-branch (interactive q) _ _ v' (waiting.at v') (
        run_target-Only version v' (
          subst
            (λ (x : World H.State).
              Exits version (record x { sent = x.sent ++ command_start ∷ [] }))
            dropped exits)))

  setup_vm-Only : (version : Version) → Only (setup_vm H fuel version m q.mounts)
  unfolding setup_vm
  setup_vm-Only version = SendsOnly-bind _ _ (sending-Only setup_start allows.setting_up) (λ _.
      SendsOnly-bind _ _
        (SendsOnly-context _ _ (
          mount_in_guest-SendsOnly H fuel version allows.mounting shared_9p_fs_mount_path
            shared_9p_fs_mount_tag false))
        (λ _.
          SendsOnly-bind _ _ (mount_all-SendsOnly H fuel version allows.mounting m q.mounts)
            (λ _. sending-Only (setup_end (ok tt)) (allows.set_up (ok tt)))))

  connect_vm-Only : Only (connect_vm H fuel m q)
  unfolding connect_vm
  connect_vm-Only = SendsOnly-bind _ _ (search (sends_rules, wait_for_qemu-SendsOnly)) (λ _.
      SendsOnly-bind _ _ (search (or_with_stderr-SendsOnly, connect_to_uds-SendsOnly)) (λ _.
        SendsOnly-bind _ _ (search sends_rules) (λ _.
          SendsOnly-bind _ _ (search (sends_rules, or_with_stderr-SendsOnly)) (λ _.
            SendsOnly-bind _ _ (search (sends_rules, new-SendsOnly)) (λ version.
              SendsOnly-bind _ _ (sending-Only (boot_end (ok tt)) (allows.booted (ok tt)))
                (λ _. SendsOnly-pure version))))))

  boot_vm-Only : Only (boot_vm H fuel m q)
  unfolding boot_vm
  boot_vm-Only = SendsOnly-bind _ _ (sending-Only boot_start allows.booting) (λ _.
      SendsOnly-bind _ _ (search sends_rules) (λ _. SendsOnly-bind _ _ SendsOnly-pipe_stderr (λ _.
        SendsOnly-bind _ _ (search (sends_rules, stream_child_output-SendsOnly))
          (λ _. SendsOnly-on_failure _ _ connect_vm-Only (child_cleanup-SendsOnly H)))))

  run_booted-Only :
      (version : Version) (v : World H.State)
      → boot_vm H fuel m q w ≡ (done version, v)
      → OnlyAt (run_booted H fuel m render q version) v
  unfolding run_booted RanFrom
  run_booted-Only version v boots =
      Sent-bind (attempt (setup_vm H fuel version m q.mounts)) _ v
        ((SendsOnly-attempt _ (setup_vm-Only version)).at v) went
    where
      went :
          (result : Result (Unit {0})) (v' : World H.State)
          → attempt (setup_vm H fuel version m q.mounts) v ≡ (done result, v')
          → OnlyAt
              (match_result result
                (λ _. run_ready H fuel m render q version)
                (λ e. send (setup_end (err e))))
              v'
      went (err e) v' h =
          unfold match_result in (sending-Only (setup_end (err e)) (allows.set_up (err e))).at v'
      went (ok _) v' h =
          let set = attempt-inv (setup_vm H fuel version m q.mounts) v tt v' h in
          unfold match_result in
          run_ready-Only version v' (λ rc ran. allows.exited rc (version, v, v', boots, set, ran))

  run_body-Only : OnlyAt (run_body H fuel m render q) w
  unfolding run_body
  run_body-Only =
      Sent-bind (attempt (boot_vm H fuel m q)) _ w ((SendsOnly-attempt _ boot_vm-Only).at w) went
    where
      went :
          (result : Result Version) (v : World H.State)
          → attempt (boot_vm H fuel m q) w ≡ (done result, v)
          → OnlyAt
              (match_result result
                (λ version. finally (run_booted H fuel m render q version) (child_cleanup H))
                (λ e. send (boot_end (err e))))
              v
      went (err e) v h =
          unfold match_result in (sending-Only (boot_end (err e)) (allows.booted (err e))).at v
      went (ok version) v h =
          let boots = attempt-inv (boot_vm H fuel m q) w version v h in
          unfold match_result in
          Sent-finally (run_booted H fuel m render q version) (child_cleanup H) v
            (run_booted-Only version v boots) (child_cleanup-SendsOnly H)

  -- Of the exit codes, a run from the world `w` sends only the one with which the command exits.
  pub run-Only : Sent P w.sent (run H fuel m render q w).1.sent
  unfolding run
  run-Only =
      Sent-finally (run_body H fuel m render q) (drop_qemu H fuel m render q) w run_body-Only
        (drop_qemu-SendsOnly H fuel m render q)
