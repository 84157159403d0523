-- ===== src/Vmtest/Instance.antt =====
-- `struct Vmtest` of src/vmtest.rs, and how it hands a target to `Qemu::new`.
pub mod Laws
use vmtest.Base.{
  ℕ, List, [], ◌∷◌, ◌++◌, Option, none, some, Text, text, Result, ok, err, bail, context, ◌>>=◌,
  ◌>>◌, get_elem?, show,
}
use vmtest.Config.{Target, Config}
use vmtest.Vmtest.Validate.{validate_config}
use vmtest.Vmtest.Resolve.{resolve_target}

pub record Vmtest : Type 0 where
  pub base : Text
  pub config : Config

-- `Vmtest::new`
unfoldable pub new : Text → Config → Result Vmtest
unfolding validate_config
new path config = do
  context (text "Invalid config") (validate_config config)
  ok (record { base = path; config = config })

-- `ok_or_else` of the lookup
abbrev pub found_at : ℕ → Option Target → Result Target
found_at idx none = bail (text "idx=" ++ show idx ++ text " out of range")
found_at idx (some t) = ok t

-- `setup_qemu` up to the call of `Qemu::new`: the target that it is called with.
unfoldable pub setup_target : Vmtest → ℕ → Result Target
unfolding resolve_target
setup_target v idx = do
  t ← found_at idx (get_elem? v.config.target idx)
  ok (resolve_target v.base t)
