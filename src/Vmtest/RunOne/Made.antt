-- ===== src/Vmtest/RunOne/Made.antt =====
-- What `setup_qemu` of src/vmtest.rs sends and makes.
use vmtest.Base.{ℕ, Text, text, Result, ok, err, ◌≡◌}
use vmtest.Config.{Target}
use vmtest.Output.{Output}
use vmtest.Host.{Host, World, done, pure, throw, context}
use vmtest.Host.Inversion.{bind-inv, context-inv}
use vmtest.Host.Sends.{
  SendsOnly, SendsOnly-bind, SendsOnly-context, SendsOnly-pure, SendsOnly-throw,
}
use vmtest.Qga.Connect.{lift}
use vmtest.Qemu.Args.{Machine}
use vmtest.Qemu.Instance.{Qemu, CommandContext}
use vmtest.Qemu.New
use vmtest.Qemu.New.{Formats}
use vmtest.Qemu.New.Made.{Made, new-Made}
use vmtest.Qemu.New.Updates.{new-SendsOnly}
use vmtest.Vmtest.Instance.{Vmtest, setup_target}
use vmtest.Vmtest.RunOne.{setup_qemu}

lift-SendsOnly : {S A : Type 0} {P : Output → Type 0} (r : Result A) → SendsOnly P (lift {S = S} r)
lift-SendsOnly (ok a) = SendsOnly-pure a
lift-SendsOnly (err e) = SendsOnly-throw e

lift-inv :
    {S A : Type 0} (r : Result A) (w end : World S) (a : A) → lift r w ≡ (done a, end) → r ≡ ok a
unfolding pure throw
lift-inv (ok b) w end a e = cc e
lift-inv (err x) w end a e = absurd (cc e)

module _ (H : Host) (fuel : ℕ) (m : Machine) (fmt : Formats) (render : CommandContext → Text)
    (v : Vmtest) where
  -- No update is sent.
  pub setup_qemu-SendsOnly :
      {P : Output → Type 0} (idx : ℕ) → SendsOnly P (setup_qemu H fuel m fmt render v idx)
  unfolding setup_qemu
  setup_qemu-SendsOnly idx =
      SendsOnly-bind _ _ (lift-SendsOnly (setup_target v idx))
        (λ t. SendsOnly-context _ _ (new-SendsOnly H fmt m t v.base))

  -- The instance is made for the target at the index.
  pub setup_qemu-Made :
      (idx : ℕ) (w end : World H.State) (q : Qemu)
      → setup_qemu H fuel m fmt render v idx w ≡ (done q, end)
      → (t : Target) × (setup_target v idx ≡ ok t) × Made m t v.base q
  unfolding setup_qemu
  setup_qemu-Made idx w end q e =
      let (t, w', target, built) =
        bind-inv (lift (setup_target v idx))
          (λ t. context (text "Failed to setup QEMU") (New.new H fmt m t v.base)) w q end e in
      let built' =
        context-inv (text "Failed to setup QEMU") (New.new H fmt m t v.base) w' q end built in
      (t, lift-inv (setup_target v idx) w w' t target, new-Made H fmt m t v.base w' end q built')
