-- ===== src/Ui/Program.antt =====
-- `Ui::run` of src/ui.rs over `Vmtest::run_one`: each target has a channel of its own. What
-- arrives on it is the updates of `run_one`, as the argument `arrive` has them arrive among the
-- lines of the threads that stream output.
pub mod Due
pub mod Returns
pub mod Truthful
use vmtest.Base.{
  ℕ, suc, ◌+◌, List, [], ◌∷◌, Option, none, some, Bool, Text, length, get_or, ◌==◌, nat_eq,
}
use vmtest.Base.Integers.{ℤ, pos}
use vmtest.Config.{Target}
use vmtest.Output.{Output}
use vmtest.Host.{Host, World, Act, ◌>>=◌, ◌>>◌, pure, panics, match_option, branch}
use vmtest.Qemu.Args.{Machine}
use vmtest.Qemu.Instance.{CommandContext}
use vmtest.Qemu.New.{Formats}
use vmtest.Vmtest.Instance.{Vmtest}
use vmtest.Vmtest.RunOne.{run_one}
use vmtest.Ui.Terminal.{Term}
use vmtest.Ui.Target.{target_ui}
use vmtest.Ui.Run.{count_failure, ex_unavailable}

-- `channel()`, and what was sent on it once its senders are gone.
unfoldable pub channel : {S : Type 0} → Act S (Unit {0})
channel w = pure tt (record w { sent = [] })

unfoldable pub received : {S : Type 0} → Act S (List Output)
received w = pure w.sent w

module _ (H : Host) (fuel : ℕ) (m : Machine) (fmt : Formats) (render : CommandContext → Text)
    (v : Vmtest) where
  -- The updates of one target.
  unfoldable pub updates_of : ℕ → Act H.State (List Output)
  unfolding channel received
  updates_of idx = do channel; run_one H fuel m fmt render v idx; received

module _ (H : Host) (fuel : ℕ) (m : Machine) (fmt : Formats) (render : CommandContext → Text)
    (v : Vmtest) (T : Term) (arrive : ℕ → List Output → List Output) where
  -- The loop over the targets; the second argument is `single_cmd`.
  unfoldable pub ui_loop : Bool → Bool → ℕ → ℕ → List Target → T.Screen → Act H.State (ℤ × T.Screen)
  ui_loop show_cmd single_cmd failed idx [] s = pure (pos failed, s)
  ui_loop show_cmd single_cmd failed idx (t ∷ ts) s = do
    updates ← updates_of H fuel m fmt render v idx
    (verdict, s') ← match_option (target_ui T t.name show_cmd (arrive idx updates) s) panics pure
    let rc = get_or verdict ex_unavailable
    let rest = ui_loop show_cmd single_cmd (count_failure failed rc) (suc idx) ts s'
    branch single_cmd (pure (rc, s')) rest

  unfoldable pub ui_run : Bool → T.Screen → Act H.State (ℤ × T.Screen)
  ui_run show_cmd s = ui_loop show_cmd (length v.config.target == 1) 0 0 v.config.target s
