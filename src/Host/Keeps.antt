-- ===== src/Host/Keeps.antt =====
-- Which actions keep a property of the host, one rule for each way to build an action.
use vmtest.Base.{Option, none, some, Bool, true, false, Text, Error, Result}
use vmtest.Host.{
  World, Act, Outcome, done, fail, panic, unfinished, continue, ◌>>=◌, pure, throw, panics, call,
  ask, context, after_failure, on_failure, match_option, branch,
}

-- However the action ends, the host has the property at its end if it had it at the start.
pub record KeepsHost {S : Type 0} {A : Type 0} (P : S → Type 0) (m : Act S A) : Type 0 where
  pub at : (w : World S) → P w.host → P (m w).1.host

module _ {S : Type 0} {A : Type 0} {P : S → Type 0} where
  pub KeepsHost-pure : (a : A) → KeepsHost P (pure a)
  unfolding pure
  KeepsHost-pure a = record { at = λ w h. h }

  pub KeepsHost-throw : (e : Error) → KeepsHost P (throw {A = A} e)
  unfolding throw
  KeepsHost-throw e = record { at = λ w h. h }

  pub KeepsHost-panics : KeepsHost P (panics {A = A})
  unfolding panics
  KeepsHost-panics = record { at = λ w h. h }

  pub KeepsHost-call :
      (op : S → Result A × S) → ((s : S) → P s → P (op s).1) → KeepsHost P (call op)
  unfolding call
  KeepsHost-call op k = record { at = λ w h. k w.host h }

  pub KeepsHost-ask : (op : S → A × S) → ((s : S) → P s → P (op s).1) → KeepsHost P (ask op)
  unfolding ask
  KeepsHost-ask op k = record { at = λ w h. k w.host h }

  pub KeepsHost-context : (c : Text) (m : Act S A) → KeepsHost P m → KeepsHost P (context c m)
  unfolding context
  KeepsHost-context c m k = record { at = λ w h. k.at w h }

  pub KeepsHost-branch :
      (b : Bool) (m n : Act S A) → KeepsHost P m → KeepsHost P n → KeepsHost P (branch b m n)
  unfolding branch
  KeepsHost-branch true m n k l = k
  KeepsHost-branch false m n k l = l

  after_failure-keeps :
      (r : Outcome A) (cleanup : Act S (Unit {0})) (w : World S)
      → KeepsHost P cleanup
      → P w.host
      → P (after_failure r cleanup w).host
  after_failure-keeps (done a) cleanup w k h = h
  after_failure-keeps (fail e) cleanup w k h = k.at w h
  after_failure-keeps panic cleanup w k h = k.at w h
  after_failure-keeps unfinished cleanup w k h = h

  pub KeepsHost-on_failure :
      (m : Act S A) (cleanup : Act S (Unit {0}))
      → KeepsHost P m
      → KeepsHost P cleanup
      → KeepsHost P (on_failure m cleanup)
  unfolding on_failure
  KeepsHost-on_failure m cleanup k l = record {
    at = λ w h. after_failure-keeps (m w).0 cleanup (m w).1 l (k.at w h);
  }

module _ {S : Type 0} {A B : Type 0} {P : S → Type 0} where
  continue-keeps :
      (r : Outcome A) (f : A → Act S B) (w : World S)
      → ((a : A) → KeepsHost P (f a))
      → P w.host
      → P (continue r f w).1.host
  continue-keeps (done a) f w k h = (k a).at w h
  continue-keeps (fail e) f w k h = h
  continue-keeps panic f w k h = h
  continue-keeps unfinished f w k h = h

  pub KeepsHost-bind :
      (m : Act S A) (f : A → Act S B)
      → KeepsHost P m
      → ((a : A) → KeepsHost P (f a))
      → KeepsHost P (m >>= f)
  unfolding ◌>>=◌
  KeepsHost-bind m f k l = record { at = λ w h. continue-keeps (m w).0 f (m w).1 l (k.at w h) }

  pub KeepsHost-match_option :
      (o : Option A) (n : Act S B) (f : A → Act S B)
      → KeepsHost P n
      → ((a : A) → KeepsHost P (f a))
      → KeepsHost P (match_option o n f)
  unfolding match_option
  KeepsHost-match_option none n f k l = k
  KeepsHost-match_option (some a) n f k l = l a

pub ruleset keeps_rules = (
  KeepsHost-pure, KeepsHost-throw, KeepsHost-panics, KeepsHost-call, KeepsHost-ask,
  KeepsHost-context, KeepsHost-branch, KeepsHost-on_failure, KeepsHost-bind, KeepsHost-match_option,
)
