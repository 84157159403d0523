-- ===== src/Guest/Command/Ran.antt =====
-- What `run_command` of src/qemu.rs went through where it has succeeded.
use vmtest.Base.{Option, ℕ, [], ◌∷◌, none, some, not, Text, text, ◌≡◌}
use vmtest.Base.Integers.{ℤ}
use vmtest.Output.{command}
use vmtest.Host.{Host, World, Act, done, ◌>>=◌, call, context, finally, ignore_error}
use vmtest.Host.Inversion.{bind-inv, context-inv, finally-inv}
use vmtest.Qga.Version.{Version}
use vmtest.Qemu.Instance.{Qemu, CommandContext, command_context}
use vmtest.Qemu.Boot.{connect_to_uds}
use vmtest.Guest.{run_in_vm}
use vmtest.Guest.Outcome.{RunsTo, run_in_vm-inv}
use vmtest.Guest.Command.{run_connected, run_command}

module _ (H : Host) (fuel : ℕ) (render : CommandContext → Text) (q : Qemu) (version : Version) where
  abbrev run_bash : Act H.State ℤ
  run_bash =
      run_in_vm H fuel version (some command) (text "bash")
        (text "-c" ∷ render (command_context q) ∷ []) (not q.image)

  abbrev connecting : Act H.State (Unit {0})
  connecting =
      context (text "Failed to connect to command output socket")
        (connect_to_uds H fuel q.socks.command)

  -- From the world `w` on: the read timeout has been read and lifted, the socket of the command's
  -- output has been connected, and then the agent has run the command of the target, by bash, with
  -- the environment of vmtest unless the target has an image, and it has exited with the code.
  pub Ran : World H.State → ℤ → Type 0
  Ran w rc =
      (old : Option ℕ) × (w₁ w₂ w₃ end : World H.State) × (call H.read_timeout w ≡ (done old, w₁))
      × (call (H.set_read_timeout none) w₁ ≡ (done tt, w₂))
      × (connect_to_uds H fuel q.socks.command w₂ ≡ (done tt, w₃))
      × RunsTo H fuel version (some command) (text "bash")
          (text "-c" ∷ render (command_context q) ∷ []) (not q.image) w₃ rc end

  pub run_command-Ran :
      (w end : World H.State) (rc : ℤ)
      → run_command H fuel render version q w ≡ (done rc, end)
      → Ran w rc
  unfolding run_command run_connected Ran
  run_command-Ran w end rc e =
      let (old, w₁, read, rest) =
        bind-inv (call H.read_timeout)
          (λ old.
            finally (run_connected H fuel render version q)
              (ignore_error (call (H.set_read_timeout old))))
          w rc end e in
      let (last, ran) =
        finally-inv (run_connected H fuel render version q)
          (ignore_error (call (H.set_read_timeout old))) w₁ rc end rest in
      let (u, w₂, set, more) =
        bind-inv (call (H.set_read_timeout none)) (λ _. connecting >>= λ _. run_bash) w₁ rc last
          ran in
      let (u', w₃, connected, exited) = bind-inv connecting (λ _. run_bash) w₂ rc last more in
      (
        old,
        w₁,
        w₂,
        w₃,
        last,
        read,
        set,
        context-inv _ _ w₂ tt w₃ connected,
        run_in_vm-inv H fuel version _ _ _ _ w₃ last rc exited,
      )
