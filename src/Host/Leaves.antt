-- ===== src/Host/Leaves.antt =====
-- Which actions leave the world in order where they end, one rule for each way to build an action.
use vmtest.Base.{Option, none, some, Bool, true, false, ◌≢◌, refl}
use vmtest.Host.{
  World, Act, Outcome, done, fail, panic, unfinished, continue, ◌>>=◌, pure, panics, match_option,
  branch,
}

-- Where the action ends, by a result, an error or a panic, the world has the property if it had it
-- at the start.
pub record Leaves {S : Type 0} {A : Type 0} (P : World S → Type 0) (m : Act S A) : Type 0 where
  pub at : (w : World S) → P w → (m w).0 ≢ unfinished → P (m w).1

module _ {S : Type 0} {A : Type 0} {P : World S → Type 0} where
  pub Leaves-pure : (a : A) → Leaves P (pure a)
  unfolding pure
  Leaves-pure a = record { at = λ w h n. h }

  pub Leaves-panics : Leaves P (panics {A = A})
  unfolding panics
  Leaves-panics = record { at = λ w h n. h }

  pub Leaves-branch : (b : Bool) (m n : Act S A) → Leaves P m → Leaves P n → Leaves P (branch b m n)
  unfolding branch
  Leaves-branch true m n k l = k
  Leaves-branch false m n k l = l

module _ {S : Type 0} {A B : Type 0} {P : World S → Type 0} where
  continue-leaves :
      (r : Outcome A) (f : A → Act S B) (w : World S)
      → ((a : A) → Leaves P (f a))
      → (r ≢ unfinished → P w)
      → (continue r f w).0 ≢ unfinished
      → P (continue r f w).1
  continue-leaves (done a) f w k h n = (k a).at w (h (λ e. cc e)) n
  continue-leaves (fail e) f w k h n = h (λ e. cc e)
  continue-leaves panic f w k h n = h (λ e. cc e)
  continue-leaves unfinished f w k h n = absurd (n refl)

  pub Leaves-bind :
      (m : Act S A) (f : A → Act S B) → Leaves P m → ((a : A) → Leaves P (f a)) → Leaves P (m >>= f)
  unfolding ◌>>=◌
  Leaves-bind m f k l = record { at = λ w h n. continue-leaves (m w).0 f (m w).1 l (k.at w h) n }

  pub Leaves-match_option :
      (o : Option A) (n : Act S B) (f : A → Act S B)
      → Leaves P n
      → ((a : A) → Leaves P (f a))
      → Leaves P (match_option o n f)
  unfolding match_option
  Leaves-match_option none n f k l = k
  Leaves-match_option (some a) n f k l = l a

pub ruleset leaves_rules =
    (Leaves-pure, Leaves-panics, Leaves-branch, Leaves-bind, Leaves-match_option)
