-- ===== src/Vmtest/RunOne/Protocol.antt =====
-- The updates of `run_one` follow the state machine.
use vmtest.Base.{
  ℕ, List, [], Option, none, some, Bool, true, not, ◌&&◌, Text, text, text_eq, ◌==◌, Result, ok,
  err, is_some, ◌≡◌, refl, sym, ap, ◌∙◌, ◌⊎◌, inl, inr,
}
use mathlib.Core.Path.{subst}
use vmtest.Config.{Target}
use vmtest.Output.{boot_end}
use vmtest.Output.Order.{Phase, idle, ready, finished, failed, follow}
use vmtest.Host.{Host, World, pure, panics, send, context, match_option}
use vmtest.Host.Sends.{sends_rules}
use vmtest.Host.Moves.{
  Moves, Ends, Moves-pure, Moves-panics, Moves-context, Moves-on_failure, Moves-stay, Moves-send,
  Moves-imp, Moves-throw,
}
use vmtest.Host.Moves.Chain.{Moves-bind, Moves-then, Moves-match}
use vmtest.Qga.Connect.{lift}
use vmtest.Qemu.Args.{Machine}
use vmtest.Qemu.Invocation.{Sockets, qemu_args}
use vmtest.Qemu.Instance.{Qemu, CommandContext, interactive, magic_interactive_command}
use vmtest.Qemu.New
use vmtest.Qemu.New.{
  make, Formats, lift_panic, own_init, check_spawned, gen_sock, verify_qemu_exists, fill_init,
  gen_init, new_with_init,
}
use vmtest.Qemu.New.Updates.{gen_sock-SendsOnly, verify-SendsOnly, gen_init-SendsOnly}
use vmtest.Qemu.Run.{run}
use vmtest.Qemu.Run.Protocol.{drop_init-SendsOnly, Closed, Never, run-Moves}
use vmtest.Vmtest.Instance.{Vmtest, setup_target}
use vmtest.Vmtest.RunOne.{setup_qemu, run_one}

-- The target asks for a shell.
abbrev pub wants_shell : Target → Bool
wants_shell t = t.command == magic_interactive_command && not (is_some t.image)

module _ (H : Host) (fmt : Formats) where
  -- The instance is interactive exactly if its target asks for a shell.
  abbrev Built : Target → Qemu → Phase → Type 0
  Built t q p = (p ≡ idle) × (interactive q ≡ wants_shell t)

  new_with_init-Moves :
      (m : Machine) (t : Target) (host_shared : Text) (socks : Sockets) (guest_init : Text)
      → Moves idle (new_with_init H fmt m t host_shared socks guest_init) (Built t) (λ p. p ≡ idle)
  unfolding new_with_init interactive match_option make
  new_with_init-Moves m t host_shared socks guest_init =
      Moves-then idle idle _ _ (Moves-stay idle _ (verify-SendsOnly H fmt _) refl)
        (λ _. built (qemu_args m socks guest_init host_shared t))
    where
      built :
          (o : Option (List Text))
          → Moves {S = H.State} idle
              (match_option o panics (λ args. pure (make t host_shared socks args)))
              (Built t)
              (λ p. p ≡ idle)
      built none = Moves-panics idle
      built (some args) = Moves-pure idle _ (refl, refl)

  new-Moves :
      (m : Machine) (t : Target) (host_shared : Text)
      → Moves idle (New.new H fmt m t host_shared) (Built t) (λ p. p ≡ idle)
  unfolding New.new
  new-Moves m t host_shared =
      Moves-then idle idle _ _ (Moves-stay idle _ (gen_sock-SendsOnly H fmt (text "qga")) refl)
        (λ _.
          Moves-then idle idle _ _ (Moves-stay idle _ (gen_sock-SendsOnly H fmt (text "qmp")) refl)
            (λ _.
              Moves-then idle idle _ _
                (Moves-stay idle _ (gen_sock-SendsOnly H fmt (text "cmdout")) refl)
                (λ _.
                  Moves-then idle idle _ _
                    (Moves-stay idle _ (search (sends_rules, gen_init-SendsOnly)) refl)
                    (λ _.
                      Moves-on_failure idle _ _ (new_with_init-Moves m t host_shared _ _)
                        (λ p. drop_init-SendsOnly)))))

-- How the run of a target may end.
abbrev pub ClosedOne : Vmtest → ℕ → Phase → Type 0
ClosedOne v idx p =
    (p ≡ finished)
    ⊎ ((p ≡ failed)
        ⊎ ((p ≡ ready) × ((t : Target) × (setup_target v idx ≡ ok t) × (wants_shell t ≡ true))))

lift-Moves :
    {S A : Type 0} (r : Result A)
    → Moves idle (lift {S = S} r) (λ a p. (p ≡ idle) × (r ≡ ok a)) (λ p. p ≡ idle)
lift-Moves (ok a) = Moves-pure idle a (refl, refl)
lift-Moves (err e) = Moves-throw idle e refl

module _ (H : Host) (fuel : ℕ) (m : Machine) (fmt : Formats) (render : CommandContext → Text)
    (v : Vmtest) where
  -- The instance is that of the target at `idx`.
  abbrev BuiltAt : ℕ → Qemu → Phase → Type 0
  BuiltAt idx q p =
      (p ≡ idle) × ((t : Target) × (setup_target v idx ≡ ok t) × (interactive q ≡ wants_shell t))

  setup_qemu-Moves :
      (idx : ℕ) → Moves idle (setup_qemu H fuel m fmt render v idx) (BuiltAt idx) (λ p. p ≡ idle)
  unfolding setup_qemu
  setup_qemu-Moves idx = Moves-bind idle _ _ (lift-Moves (setup_target v idx)) (λ t p (h, e).
      subst
        (λ x.
          Moves x (context (text "Failed to setup QEMU") (New.new H fmt m t v.base)) (BuiltAt idx)
            (λ p. p ≡ idle))
        (sym h)
        (Moves-context idle _ _
          (Moves-imp idle _ (new-Moves H fmt m t v.base) (λ q p (k, i). (k, (t, e, i))))))

  closes : (idx : ℕ) (q : Qemu) (p p' : Phase) → BuiltAt idx q p → Closed q p' → ClosedOne v idx p'
  closes idx q p p' (h, (t, e, i)) (inl x) = inl x
  closes idx q p p' (h, (t, e, i)) (inr (inl x)) = inr (inl x)
  closes idx q p p' (h, (t, e, i)) (inr (inr (x, y))) = inr (inr (x, (t, e, sym i ∙ y)))

  pub run_one-Moves :
      (idx : ℕ) → Moves idle (run_one H fuel m fmt render v idx) (λ _. ClosedOne v idx) Never
  unfolding run_one
  run_one-Moves idx =
      Moves-match idle _ _ _ (setup_qemu-Moves idx)
        (λ q p b.
          subst (λ x. Moves x (run H fuel m render q) (λ _. ClosedOne v idx) Never) (sym b.0)
            (Moves-imp idle _ (run-Moves H fuel m render q) (λ _ p' c. closes idx q p p' b c)))
        (λ e p h.
          subst (λ x. Moves {S = H.State} x (send (boot_end (err e))) (λ _. ClosedOne v idx) Never)
            (sym h) (Moves-send idle failed _ refl (inr (inl refl))))

  -- Of `run_one` on an empty channel, the updates follow the state machine, however it ends. If
  -- it returns, then they end with a `CommandEnd`, with the `Err` of an earlier stage (of the boot
  -- where the instance could not even be set up), or, where the target asks for a shell, with the
  -- end of a successful setup; and it never returns an error.
  pub run_one-follow :
      (idx : ℕ) (w : World H.State)
      → w.sent ≡ []
      → (p : Phase) × (follow idle (run_one H fuel m fmt render v idx w).1.sent ≡ some p)
        × Ends (λ _. ClosedOne v idx) Never (run_one H fuel m fmt render v idx w).0 p
  run_one-follow idx w h = (run_one-Moves idx).at w (ap (follow idle) h)
