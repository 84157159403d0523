-- ===== src/Qemu/Boot/Sockets.antt =====
-- When the two halves of a round of `wait_for_qemu` succeed.
use vmtest.Base.{
  Option, none, some, Bool, true, false, ◌&&◌, Text, text, ok, ◌≡◌, refl, sym, ap, ◌∙◌, ◌++◌, ◌∷◌,
  [],
}
use vmtest.Host.{Host, World, Act, done, ◌>>=◌, pure, throw, call, context, branch, match_option}
use vmtest.Host.Inversion.{bind-done, bind-inv, context-done, context-inv, call-done, call-inv}
use vmtest.Qemu.Boot.{extract_child_stderr, check_child, sockets_ready}

module _ (H : Host) where
  abbrev inspecting : Act H.State (Option Bool)
  inspecting = context (text "Failed to inspect QEMU status") (call H.try_wait)

  -- What follows the inspection.
  abbrev inspected : Option Bool → Act H.State (Unit {0})
  inspected status = match_option status (pure tt) (λ success.
      branch success (throw (text "QEMU exits normally which is not expected" ∷ [])) (
        extract_child_stderr H >>= λ stderr. throw ((text "QEMU fails to start: " ++ stderr) ∷ [])))

  inspected-inv :
      (status : Option Bool) (w end : World H.State)
      → inspected status w ≡ (done tt, end)
      → (status ≡ none) × (end ≡ w)
  unfolding match_option branch pure throw
  inspected-inv none w end e = (refl, cc e)
  inspected-inv (some true) w end e = absurd (cc e)
  inspected-inv (some false) w end e =
      let (stderr, w', read, thrown) =
        bind-inv (extract_child_stderr H)
          (λ stderr. throw ((text "QEMU fails to start: " ++ stderr) ∷ [])) w tt end e in
      absurd (cc thrown)

  pub check_child-inv :
      (w end : World H.State)
      → check_child H w ≡ (done tt, end)
      → (s : H.State) × (H.try_wait w.host ≡ (ok none, s)) × (end ≡ record w { host = s })
  unfolding check_child
  check_child-inv w end e =
      let (status, w', asked, rest) = bind-inv inspecting inspected w tt end e in
      let (runs, same) = inspected-inv status w' end rest in
      let (s, answer, after) =
        call-inv H.try_wait w status w' (context-inv _ _ w status w' asked) in
      (s, answer ∙ ap (λ o. (ok o, s)) runs, same ∙ after)

  pub check_child_of :
      (w : World H.State) (s : H.State)
      → H.try_wait w.host ≡ (ok none, s)
      → check_child H w ≡ (done tt, record w { host = s })
  unfolding check_child match_option pure
  check_child_of w s e =
      bind-done inspecting inspected w none (record w { host = s })
        (context-done _ _ w none (record w { host = s }) (call-done H.try_wait w none s e))

  abbrev statting : Text → Act H.State Bool
  statting path = context (text "Cannot stat " ++ path) (call (H.try_exists path))

  pub sockets_ready-inv :
      (qga qmp : Text) (w end : World H.State) (ready : Bool)
      → sockets_ready H qga qmp w ≡ (done ready, end)
      → (s₁ s₂ : H.State) × (a b : Bool) × (H.try_exists qga w.host ≡ (ok a, s₁))
        × (H.try_exists qmp s₁ ≡ (ok b, s₂))
        × ((a && b) ≡ ready)
        × (end ≡ record w { host = s₂ })
  unfolding sockets_ready pure
  sockets_ready-inv qga qmp w end ready e =
      let (a, w₁, first, rest) =
        bind-inv (statting qga) (λ a. statting qmp >>= λ b. pure (a && b)) w ready end e in
      let (b, w₂, second, last) = bind-inv (statting qmp) (λ b. pure (a && b)) w₁ ready end rest in
      let (s₁, found₁, same₁) = call-inv (H.try_exists qga) w a w₁ (context-inv _ _ w a w₁ first) in
      let (s₂, found₂, same₂) =
        call-inv (H.try_exists qmp) w₁ b w₂ (context-inv _ _ w₁ b w₂ second) in
      (
        s₁,
        s₂,
        a,
        b,
        found₁,
        ap (λ (v : World H.State). H.try_exists qmp v.host) (sym same₁) ∙ found₂,
        cc last,
        cc (last, same₂) ∙ ap (λ (v : World H.State). record v { host = s₂ }) same₁,
      )

  pub sockets_ready_of :
      (qga qmp : Text) (w : World H.State) (s₁ s₂ : H.State) (a b : Bool)
      → H.try_exists qga w.host ≡ (ok a, s₁)
      → H.try_exists qmp s₁ ≡ (ok b, s₂)
      → sockets_ready H qga qmp w ≡ (done (a && b), record w { host = s₂ })
  unfolding sockets_ready pure
  sockets_ready_of qga qmp w s₁ s₂ a b e f =
      bind-done (statting qga) (λ a. statting qmp >>= λ b. pure (a && b)) w a
        (record w { host = s₁ }) (context-done _ _ w a _ (call-done (H.try_exists qga) w a s₁ e))
      ∙ bind-done (statting qmp) (λ b. pure (a && b)) (record w { host = s₁ }) b
          (record w { host = s₂ })
          (context-done _ _ (record w { host = s₁ }) b _
            (call-done (H.try_exists qmp) (record w { host = s₁ }) b s₂ f))
