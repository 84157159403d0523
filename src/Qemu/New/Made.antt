-- ===== src/Qemu/New/Made.antt =====
-- What `Qemu::new` of src/qemu.rs makes where it succeeds.
use vmtest.Base.{List, Option, none, some, Text, text, ◌≡◌, refl}
use vmtest.Config.{Target}
use vmtest.Host.{Host, World, Act, done, ◌>>=◌, pure, panics, on_failure, context, match_option}
use vmtest.Host.Inversion.{bind-inv, on_failure-inv}
use vmtest.Qemu.Args.{Machine}
use vmtest.Qemu.Invocation.{Sockets, program, qemu_args}
use vmtest.Qemu.Instance.{Qemu}
use vmtest.Qemu.New
use vmtest.Qemu.New.{Formats, make, gen_sock, gen_init, verify_qemu_exists, new_with_init}
use vmtest.Qemu.Run.{drop_init}

-- The instance is the one of the target, with the arguments that there are for it.
abbrev pub Made : Machine → Target → Text → Qemu → Type 0
Made m t host_shared q =
    (socks : Sockets) × (guest_init : Text) × (args : List Text) × (qemu_args m socks guest_init
        host_shared t
      ≡ some args)
    × (make t host_shared socks args ≡ q)

module _ (H : Host) (fmt : Formats) (m : Machine) (t : Target) (host_shared : Text) where
  made :
      (socks : Sockets) (guest_init : Text) (o : Option (List Text)) (w end : World H.State)
      (q : Qemu)
      → qemu_args m socks guest_init host_shared t ≡ o
      → match_option o panics (λ args. pure (make t host_shared socks args)) w ≡ (done q, end)
      → Made m t host_shared q
  unfolding match_option panics pure
  made socks guest_init none w end q k e = absurd (cc e)
  made socks guest_init (some args) w end q k e = (socks, guest_init, args, k, cc e)

  new_with_init-Made :
      (socks : Sockets) (guest_init : Text) (w end : World H.State) (q : Qemu)
      → new_with_init H fmt m t host_shared socks guest_init w ≡ (done q, end)
      → Made m t host_shared q
  unfolding new_with_init
  new_with_init-Made socks guest_init w end q e =
      let (u, w', exists, rest) =
        bind-inv (verify_qemu_exists H (program t))
          (λ _.
            match_option (qemu_args m socks guest_init host_shared t) panics
              (λ args. pure (make t host_shared socks args)))
          w q end e in
      made socks guest_init (qemu_args m socks guest_init host_shared t) w' end q refl rest

  -- What is made once the three paths of the sockets are known, and what is made before.
  abbrev with_socks : Sockets → Act H.State Qemu
  with_socks socks =
      context (text "Failed to generate init") (gen_init H fmt t.rootfs) >>= λ guest_init.
      on_failure (new_with_init H fmt m t host_shared socks guest_init) drop_init

  abbrev with_qmp : Text → Text → Act H.State Qemu
  with_qmp qga qmp = gen_sock H (text "cmdout") >>= λ command.
      with_socks (record { qga = qga; qmp = qmp; command = command })

  abbrev with_qga : Text → Act H.State Qemu
  with_qga qga = gen_sock H (text "qmp") >>= with_qmp qga

  pub new-Made :
      (w end : World H.State) (q : Qemu)
      → New.new H fmt m t host_shared w ≡ (done q, end)
      → Made m t host_shared q
  unfolding New.new
  new-Made w end q e =
      let (qga, w₁, e₁, after_qga) = bind-inv (gen_sock H (text "qga")) with_qga w q end e in
      let (qmp, w₂, e₂, after_qmp) =
        bind-inv (gen_sock H (text "qmp")) (with_qmp qga) w₁ q end after_qga in
      let (command, w₃, e₃, after_command) =
        bind-inv (gen_sock H (text "cmdout"))
          (λ command. with_socks (record { qga = qga; qmp = qmp; command = command })) w₂ q end
          after_qmp in
      let socks : Sockets = record { qga = qga; qmp = qmp; command = command } in
      let (guest_init, w₄, e₄, after_init) =
        bind-inv (context (text "Failed to generate init") (gen_init H fmt t.rootfs))
          (λ guest_init.
            on_failure (new_with_init H fmt m t host_shared socks guest_init) drop_init)
          w₃ q end after_command in
      new_with_init-Made socks guest_init w₄ end q (
        on_failure-inv (new_with_init H fmt m t host_shared socks guest_init) drop_init w₄ q end
          after_init)
