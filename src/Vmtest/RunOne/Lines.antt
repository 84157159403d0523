-- ===== src/Vmtest/RunOne/Lines.antt =====
-- No update of `run_one` carries more than one line.
use vmtest.Base.{ℕ, Text}
use vmtest.Base.Strings.Laws.{length-lines_of_Lacks}
use vmtest.Host.{Host, World}
use vmtest.Qemu.Run.{run}
use vmtest.Host.Sends.{SendsOnly, sends_rules}
use vmtest.Qemu.Args.{Machine}
use vmtest.Qemu.Instance.{Qemu, CommandContext}
use vmtest.Qemu.New.{Formats}
use vmtest.Qemu.Run.Truthful.{Allows, run-Only}
use vmtest.Ui.Target.Verdict.{SingleLine}
use vmtest.Vmtest.Instance.{Vmtest}
use vmtest.Vmtest.RunOne.{run_one}
use vmtest.Vmtest.RunOne.Made.{setup_qemu-SendsOnly}

module _ (H : Host) (fuel : ℕ) (m : Machine) (fmt : Formats) (render : CommandContext → Text)
    (v : Vmtest) where
  single_lines : (q : Qemu) (w : World H.State) → Allows H fuel m render q SingleLine w
  single_lines q w = record {
    booting = tt;
    booted = λ r. tt;
    setting_up = tt;
    mounting = λ line k. length-lines_of_Lacks line k;
    set_up = λ r. tt;
    starting = tt;
    printing = λ line k. length-lines_of_Lacks line k;
    not_run = λ e. tt;
    exited = λ rc ran. tt;
  }

  run-SendsOnly : (q : Qemu) → SendsOnly SingleLine (run H fuel m render q)
  run-SendsOnly q = record { at = λ w. run-Only H fuel m render q w (single_lines q w) }

  pub run_one-SendsOnly : (idx : ℕ) → SendsOnly SingleLine (run_one H fuel m fmt render v idx)
  unfolding run_one
  run_one-SendsOnly idx = search (sends_rules, setup_qemu-SendsOnly, run-SendsOnly) depth 8
