-- ===== src/Ui/Run.antt =====
-- What `Ui::run` of src/ui.rs counts.
pub mod Count
use vmtest.Base.{
  ℕ, zero, suc, ◌+◌, List, [], ◌∷◌, Option, none, some, Bool, true, false, Text, length, get_or,
  ◌==◌, if◌then◌else◌, nat_eq,
}
use vmtest.Base.Integers.{ℤ, pos, ℤ_eq}
use vmtest.Base.Panics.{◌>>=◌}
use vmtest.Output.{Output}
use vmtest.Ui.Terminal.{Term}
use vmtest.Ui.Target.{target_ui}

-- sysexits.h: the service is unavailable.
abbrev pub ex_unavailable : ℤ
ex_unavailable = pos 69

-- A target's name, and its updates.
abbrev pub Session : Type 0
Session = Text × List Output

-- `failed += match rc { 0 => 0, _ => 1 }`
unfoldable pub count_failure : ℕ → ℤ → ℕ
count_failure failed rc = if rc == pos 0 then failed else failed + 1
