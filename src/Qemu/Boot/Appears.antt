-- ===== src/Qemu/Boot/Appears.antt =====
-- When `wait_for_qemu` of src/qemu.rs succeeds.
use vmtest.Base.{
  ℕ, zero, suc, ◌-◌, ◌<◌, none, Bool, true, false, ◌&&◌, Text, text, ltb, ok, ◌≡◌, ◌≢◌, ◌↔◌, refl,
  sym, ap, ◌∙◌, inl, inr, arith, Bool-cases, ◌∷◌, [],
}
use mathlib.Core.Path.{subst}
use vmtest.Host.{Host, World, Act, done, ◌>>=◌, pure, throw, out_of_fuel, ask, branch}
use vmtest.Host.Inversion.{bind-done, bind-inv}
use vmtest.Qemu.Boot.{check_child, sockets_ready, wait_loop, wait_for_qemu}
use vmtest.Qemu.Boot.Sockets.{check_child-inv, check_child_of, sockets_ready-inv, sockets_ready_of}

module _ (H : Host) where
  -- What a round that succeeds asks of the host: it is in time, the child still runs, and whether
  -- both sockets are there.
  abbrev pub Round : ℕ → Text → Text → H.State → Bool → H.State → Type 0
  Round start qga qmp s ready s' =
      (s₁ s₂ : H.State) × (a b : Bool) × ((H.now s).0 - start < 5000)
      × (H.try_wait (H.now s).1 ≡ (ok none, s₁))
      × (H.try_exists qga s₁ ≡ (ok a, s₂))
      × (H.try_exists qmp s₂ ≡ (ok b, s'))
      × ((a && b) ≡ ready)

  -- The number of rounds in which a socket is missing, each followed by a pause, before the one in
  -- which both are there.
  pub data Appears (start : ℕ) (qga qmp : Text) : ℕ → H.State → H.State → Type 0 where
    appears_now : {s s' : H.State} → Round start qga qmp s true s' → Appears start qga qmp zero s s'
    appears_later :
        {n : ℕ} {s s' end : H.State}
        → Round start qga qmp s false s'
        → Appears start qga qmp n (H.sleep 50 s') end
        → Appears start qga qmp (suc n) s end

  module _ (start : ℕ) (qga qmp : Text) where
    -- The end of a round: to return, or to go on behind a pause.
    abbrev ending : ℕ → Bool → Act H.State (Unit {0})
    ending fuel ready =
        branch ready (pure tt)
          (ask (λ s. (tt, H.sleep 50 s)) >>= λ _. wait_loop H fuel start qga qmp)

    -- A round in time.
    abbrev going : ℕ → Act H.State (Unit {0})
    going fuel = check_child H >>= λ _. sockets_ready H qga qmp >>= ending fuel

    abbrev late : Act H.State (Unit {0})
    late = throw (text "QEMU sockets did not appear in time" ∷ [])

    wait_round :
        (fuel : ℕ) (w : World H.State)
        → wait_loop H (suc fuel) start qga qmp w
          ≡ branch
              (ltb ((H.now w.host).0 - start) 5000)
              (going fuel)
              late
              (record w { host = (H.now w.host).1 })
    unfolding wait_loop ◌>>=◌ ask
    wait_round fuel w = refl

    wait_in_time :
        (fuel : ℕ) (w : World H.State)
        → ltb ((H.now w.host).0 - start) 5000 ≡ true
        → wait_loop H (suc fuel) start qga qmp w ≡ going fuel (record w { host = (H.now w.host).1 })
    unfolding branch
    wait_in_time fuel w e =
        wait_round fuel w
        ∙ ap (λ t. branch t (going fuel) late (record w { host = (H.now w.host).1 })) e

    wait_late :
        (fuel : ℕ) (w end : World H.State)
        → ltb ((H.now w.host).0 - start) 5000 ≡ false
        → wait_loop H (suc fuel) start qga qmp w ≢ (done tt, end)
    unfolding branch throw
    wait_late fuel w end e h =
        let thrown =
          sym (
            wait_round fuel w
            ∙ ap (λ t. branch t (going fuel) late (record w { host = (H.now w.host).1 })) e)
          ∙ h in
        cc thrown

    ending-again :
        (fuel : ℕ) (w : World H.State)
        → ending fuel false w
          ≡ wait_loop H fuel start qga qmp (record w { host = H.sleep 50 w.host })
    unfolding branch ◌>>=◌ ask
    ending-again fuel w = refl

    -- A round in time runs on.
    wait_on :
        (fuel : ℕ) (w : World H.State) (ready : Bool) (s' : H.State)
        → Round start qga qmp w.host ready s'
        → wait_loop H (suc fuel) start qga qmp w ≡ ending fuel ready (record w { host = s' })
    wait_on fuel w ready s' (s₁, s₂, a, b, lt, runs, first, second, both) =
        let in_time : ltb ((H.now w.host).0 - start) 5000 ≡ true = ground arith in
        let now : World H.State = record w { host = (H.now w.host).1 } in
        wait_in_time fuel w in_time
        ∙ bind-done (check_child H) (λ _. sockets_ready H qga qmp >>= ending fuel) now tt
            (record w { host = s₁ }) (check_child_of H now s₁ runs)
        ∙ bind-done (sockets_ready H qga qmp) (ending fuel) (record w { host = s₁ }) (a && b)
            (record w { host = s' })
            (sockets_ready_of H qga qmp (record w { host = s₁ }) s₂ s' a b first second)
        ∙ ap (λ r. ending fuel r (record w { host = s' })) both

    one_wait-inv :
        (fuel : ℕ) (w end : World H.State)
        → wait_loop H (suc fuel) start qga qmp w ≡ (done tt, end)
        → (ready : Bool) × (s' : H.State) × Round start qga qmp w.host ready s'
          × (ending fuel ready (record w { host = s' }) ≡ (done tt, end))
    one_wait-inv fuel w end e = elim (Bool-cases (ltb ((H.now w.host).0 - start) 5000)) [
      | inl x ↦
          let now : World H.State = record w { host = (H.now w.host).1 } in
          let (u, w₁, checked, rest) =
            bind-inv (check_child H) (λ _. sockets_ready H qga qmp >>= ending fuel) now tt end
              (sym (wait_in_time fuel w x) ∙ e) in
          let (ready, w₂, found, last) =
            bind-inv (sockets_ready H qga qmp) (ending fuel) w₁ tt end rest in
          let (s₁, runs, same) = check_child-inv H now w₁ checked in
          let (s₂, s', a, b, first, second, both, same') =
            sockets_ready-inv H qga qmp w₁ w₂ ready found in
          let first' =
            subst (λ (v : World H.State). H.try_exists qga v.host ≡ (ok a, s₂)) same first in
          let after : w₂ ≡ record w { host = s' } =
            same' ∙ ap (λ (v : World H.State). record v { host = s' }) same in
          (
            ready,
            s',
            (s₁, s₂, a, b, ground arith, runs, first', second, both),
            subst (λ v. ending fuel ready v ≡ (done tt, end)) after last,
          )
      | inr x ↦ absurd (wait_late fuel w end x e)
    ]

    wait_loop_of_Appears :
        (fuel n : ℕ) (w : World H.State) (s : H.State)
        → Appears start qga qmp n w.host s
        → n < fuel
        → wait_loop H fuel start qga qmp w ≡ (done tt, record w { host = s })
    wait_loop_of_Appears zero n w s a lt = absurd (omega arith)
    wait_loop_of_Appears (suc fuel) zero w s (appears_now r) lt =
        wait_on fuel w true s r ∙ (unfold branch pure in refl)
    wait_loop_of_Appears (suc fuel) (suc n) w s (appears_later {s' = s'} r a) lt =
        wait_on fuel w false s' r
        ∙ ending-again fuel (record w { host = s' })
        ∙ wait_loop_of_Appears fuel n (record w { host = H.sleep 50 s' }) s a (omega arith)

    -- What a loop that has returned went through.
    abbrev Waited : ℕ → World H.State → World H.State → Type 0
    Waited fuel w end =
        (n : ℕ) × (s : H.State) × Appears start qga qmp n w.host s
        × (n < fuel)
        × (end ≡ record w { host = s })

    ended :
        (fuel : ℕ) (w end : World H.State) (ready : Bool) (s' : H.State)
        → Round start qga qmp w.host ready s'
        → ending fuel ready (record w { host = s' }) ≡ (done tt, end)
        → ((w' : World H.State)
            → wait_loop H fuel start qga qmp w' ≡ (done tt, end)
            → Waited fuel w' end)
        → Waited (suc fuel) w end
    ended fuel w end true s' round rest again =
        (zero, s', appears_now round, omega arith, unfold branch pure in cc rest)
    ended fuel w end false s' round rest again =
        let (n, s, later, lt, same) =
          again (record w { host = H.sleep 50 s' })
            (sym (ending-again fuel (record w { host = s' })) ∙ rest) in
        (suc n, s, appears_later round later, omega (arith, lt), same)

    wait_loop-inv :
        (fuel : ℕ) (w end : World H.State)
        → wait_loop H fuel start qga qmp w ≡ (done tt, end)
        → Waited fuel w end
    wait_loop-inv zero w end e = absurd (unfold wait_loop out_of_fuel in cc e)
    wait_loop-inv (suc fuel) w end e =
        let (ready, s', round, rest) = one_wait-inv fuel w end e in
        ended fuel w end ready s' round rest (λ w' e'. wait_loop-inv fuel w' end e')

  -- `wait_for_qemu` succeeds exactly if, in a number of rounds smaller than the fuel, the child
  -- runs and a socket is missing, a pause of 50 ms behind each of them, and then in one the child
  -- runs and both sockets are there; each of these rounds begins within 5 seconds from the start.
  pub wait_for_qemu-Appears :
      (fuel : ℕ) (qga qmp : Text) (w end : World H.State)
      → (wait_for_qemu H fuel qga qmp w ≡ (done tt, end))
        ↔ (n : ℕ) × (s : H.State) × Appears (H.now w.host).0 qga qmp n (H.now w.host).1 s
          × (n < fuel)
          × (end ≡ record w { host = s })
  unfolding wait_for_qemu ◌>>=◌ ask
  wait_for_qemu-Appears fuel qga qmp w end =
      let started : World H.State = record w { host = (H.now w.host).1 } in
      (
        wait_loop-inv (H.now w.host).0 qga qmp fuel started end,
        λ (n, s, a, lt, same).
            wait_loop_of_Appears (H.now w.host).0 qga qmp fuel n started s a lt
            ∙ ap (λ v. (done tt, v)) (sym same),
      )
