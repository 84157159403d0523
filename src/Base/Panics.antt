-- ===== src/Base/Panics.antt =====
-- Code that may panic gives `none`, and a panic ends the `do` block that it stands in.
use mathlib.Core.Option.{Option, none, some}

infixl 5 ◌>>=◌
abbrev pub ◌>>=◌ {ℓ κ} : {A : Type ℓ} {B : Type κ} → Option A → (A → Option B) → Option B
none >>= f = none
some a >>= f = f a
