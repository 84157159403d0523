-- ===== src/Base/Results.antt =====
-- `anyhow::Result`: an error is its chain of messages, the outermost context first.
use mathlib.Core.Path.{◌≡◌, refl}
use mathlib.Core.Logic.{◌⊎◌, inl, inr}
use mathlib.Core.Bool.{Bool, true, false}
use mathlib.Core.List.{List, [], ◌∷◌}
use vmtest.Base.Strings.{Text}

abbrev pub Error : Type 0
Error = List Text

pub data Result {ℓ} (T : Type ℓ) : Type ℓ where
  ok : T → Result T
  err : Error → Result T

-- `?`, and the same where the result is `()`.
infixl 5 ◌>>=◌
abbrev pub ◌>>=◌ {ℓ κ} : {T : Type ℓ} {U : Type κ} → Result T → (T → Result U) → Result U
err e >>= rest = err e
ok t >>= rest = rest t

infixl 5 ◌>>◌
abbrev pub ◌>>◌ {ℓ} : {U : Type ℓ} → Result (Unit {0}) → Result U → Result U
r >> rest = r >>= λ _. rest

-- `bail!(m)` and `anyhow!(m)`
abbrev pub bail {ℓ} : {A : Type ℓ} → Text → Result A
bail m = err (m ∷ [])

-- `.context(c)` puts a message in front of the chain.
abbrev pub context {ℓ} : {A : Type ℓ} → Text → Result A → Result A
context c (ok a) = ok a
context c (err e) = err (c ∷ e)

abbrev pub is_ok {ℓ} : {A : Type ℓ} → Result A → Bool
is_ok (ok a) = true
is_ok (err e) = false

pub Result-cases {ℓ} :
    {A : Type ℓ} (r : Result A) → ((a : A) × (r ≡ ok a)) ⊎ ((e : Error) × (r ≡ err e))
Result-cases (ok a) = inl (a, refl)
Result-cases (err e) = inr (e, refl)

-- A chain succeeds only if each of its parts does.
pub bind-ok {ℓ κ} :
    {T : Type ℓ} {U : Type κ} (r : Result T) (rest : T → Result U) (u : U)
    → (r >>= rest) ≡ ok u
    → (t : T) × (r ≡ ok t) × (rest t ≡ ok u)
bind-ok (ok t) rest u h = (t, refl, h)
bind-ok (err e) rest u h = absurd (cc h)

pub context-ok {ℓ} : {A : Type ℓ} (c : Text) (r : Result A) (a : A) → context c r ≡ ok a → r ≡ ok a
context-ok c (ok b) a h = h
context-ok c (err e) a h = absurd (cc h)
