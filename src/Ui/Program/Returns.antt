-- ===== src/Ui/Program/Returns.antt =====
-- `Ui::run` returns, if the processes in the guests end.
use vmtest.Base.{ℕ, suc, ◌*◌, ◌≤◌, List, [], ◌∷◌, Bool, Text, length, ◌==◌, nat_eq}
use vmtest.Config.{Target}
use vmtest.Output.{Output}
use vmtest.Host.{Host, pure}
use vmtest.Host.Returns.{Clock, Returns, returns_rules}
use vmtest.Qemu.Args.{Machine}
use vmtest.Qemu.Instance.{CommandContext}
use vmtest.Qemu.New.{Formats}
use vmtest.Guest.Returns.{Processes}
use vmtest.Vmtest.Instance.{Vmtest}
use vmtest.Vmtest.RunOne.Returns.{run_one-Returns}
use vmtest.Ui.Terminal.{Term}
use vmtest.Ui.Program.{channel, received, updates_of, ui_loop, ui_run}

module _ {H : Host} (L : Clock H) (b : ℕ) where
  channel-Returns : Returns L b channel
  unfolding channel pure
  channel-Returns = record { at = λ w h. (λ e. cc, h) }

  received-Returns : Returns L b received
  unfolding received pure
  received-Returns = record { at = λ w h. (λ e. cc, h) }

module _ {H : Host} {L : Clock H} (G : Processes L) (fuel : ℕ) (lasts : G.span ≤ fuel * 200)
    (boots : 120 ≤ fuel) (m : Machine) (fmt : Formats) (render : CommandContext → Text)
    (v : Vmtest) where
  updates_of-Returns : (b idx : ℕ) → Returns L b (updates_of H (suc fuel) m fmt render v idx)
  unfolding updates_of
  updates_of-Returns b idx =
      let ran = run_one-Returns G fuel m fmt render v b idx lasts boots in
      search (returns_rules, channel-Returns, received-Returns)

  module _ (T : Term) (arrive : ℕ → List Output → List Output) where
    loop_step :
        (show_cmd single_cmd : Bool) (failed idx b : ℕ) (t : Target) (ts : List Target)
        (s : T.Screen)
        → ((failed' : ℕ) (s' : T.Screen)
            → Returns L b (
                ui_loop H
                  (suc fuel)
                  m
                  fmt
                  render
                  v
                  T
                  arrive
                  show_cmd
                  single_cmd
                  failed'
                  (suc idx)
                  ts
                  s'))
        → Returns L b
            (ui_loop H (suc fuel) m fmt render v T arrive show_cmd single_cmd failed idx (t ∷ ts) s)
    unfolding ui_loop
    loop_step show_cmd single_cmd failed idx b t ts s again =
        search (returns_rules, updates_of-Returns) depth 8

    loop-Returns :
        (show_cmd single_cmd : Bool) (failed idx b : ℕ) (ts : List Target) (s : T.Screen)
        → Returns L b
            (ui_loop H (suc fuel) m fmt render v T arrive show_cmd single_cmd failed idx ts s)
    loop-Returns show_cmd single_cmd failed idx b [] s = unfold ui_loop in search returns_rules
    loop-Returns show_cmd single_cmd failed idx b (t ∷ ts) s =
        loop_step show_cmd single_cmd failed idx b t ts s
          (λ failed' s'. loop-Returns show_cmd single_cmd failed' (suc idx) b ts s')

    pub ui_run-Returns :
        (show_cmd : Bool) (b : ℕ) (s : T.Screen)
        → Returns L b (ui_run H (suc fuel) m fmt render v T arrive show_cmd s)
    unfolding ui_run
    ui_run-Returns show_cmd b s =
        loop-Returns show_cmd (length v.config.target == 1) 0 0 b v.config.target s
