-- ===== src/Host/Sends.antt =====
-- Which updates an action may send, one rule for each way to build an action.
use vmtest.Base.{
  List, [], ◌∷◌, ◌++◌, append-nil, append_assoc, Option, none, some, Bool, true, false, Text, Error,
  Result, ok, err, ◌≡◌, refl, sym, ◌∙◌, ap, All, All-append,
}
use vmtest.Output.{Output}
use vmtest.Host.{
  World, Act, Outcome, done, fail, panic, unfinished, continue, ◌>>=◌, pure, throw, panics,
  out_of_fuel, held, blocking, pipe_stderr, send, call, ask, attempt, context, after, finally,
  after_failure, on_failure, match_result, match_option, branch,
}

-- What an action adds to the updates, and that each of them satisfies `P`.
pub record Sent (P : Output → Type 0) (before after : List Output) : Type 0 where
  pub new : List Output
  pub added : after ≡ before ++ new
  pub allowed : All P new

pub Sent-refl : (P : Output → Type 0) (xs : List Output) → Sent P xs xs
Sent-refl P xs = record { new = []; added = sym (append-nil xs); allowed = tt }

pub Sent-trans :
    {P : Output → Type 0} {xs ys zs : List Output} → Sent P xs ys → Sent P ys zs → Sent P xs zs
Sent-trans {P} {xs} a b = record {
  new = a.new ++ b.new;
  added = b.added ∙ ap (λ us. us ++ b.new) a.added ∙ append_assoc xs a.new b.new;
  allowed = All-append P a.new b.new a.allowed b.allowed;
}

-- Whatever the outcome, the action sends only updates that satisfy `P`.
pub record SendsOnly {S : Type 0} {A : Type 0} (P : Output → Type 0) (m : Act S A) : Type 0 where
  pub at : (w : World S) → Sent P w.sent (m w).1.sent

module _ {S : Type 0} {A : Type 0} {P : Output → Type 0} where
  pub SendsOnly-pure : (a : A) → SendsOnly P (pure {S = S} a)
  unfolding pure
  SendsOnly-pure a = record { at = λ w. Sent-refl P w.sent }

  pub SendsOnly-throw : (e : Error) → SendsOnly P (throw {S = S} {A = A} e)
  unfolding throw
  SendsOnly-throw e = record { at = λ w. Sent-refl P w.sent }

  pub SendsOnly-panics : SendsOnly P (panics {S = S} {A = A})
  unfolding panics
  SendsOnly-panics = record { at = λ w. Sent-refl P w.sent }

  pub SendsOnly-out_of_fuel : SendsOnly P (out_of_fuel {S = S} {A = A})
  unfolding out_of_fuel
  SendsOnly-out_of_fuel = record { at = λ w. Sent-refl P w.sent }

  pub SendsOnly-call : (op : S → Result A × S) → SendsOnly P (call {S = S} op)
  unfolding call
  SendsOnly-call op = record { at = λ w. Sent-refl P w.sent }

  pub SendsOnly-ask : (op : S → A × S) → SendsOnly P (ask {S = S} op)
  unfolding ask
  SendsOnly-ask op = record { at = λ w. Sent-refl P w.sent }

  held-sends :
      (held_up : Bool) (m : Act S A) (w : World S)
      → Sent P w.sent (m w).1.sent
      → Sent P w.sent (held held_up m w).1.sent
  held-sends true m w s = Sent-refl P w.sent
  held-sends false m w s = s

  pub SendsOnly-blocking :
      (hangs : S → Bool) (m : Act S A) → SendsOnly P m → SendsOnly P (blocking hangs m)
  unfolding blocking
  SendsOnly-blocking hangs m s = record { at = λ w. held-sends (hangs w.host) m w (s.at w) }

  pub SendsOnly-attempt : (m : Act S A) → SendsOnly P m → SendsOnly P (attempt m)
  unfolding attempt
  SendsOnly-attempt m s = record { at = λ w. s.at w }

  pub SendsOnly-context : (c : Text) (m : Act S A) → SendsOnly P m → SendsOnly P (context c m)
  unfolding context
  SendsOnly-context c m s = record { at = λ w. s.at w }

  pub SendsOnly-branch :
      (b : Bool) (m n : Act S A) → SendsOnly P m → SendsOnly P n → SendsOnly P (branch b m n)
  unfolding branch
  SendsOnly-branch true m n s t = s
  SendsOnly-branch false m n s t = t

  after-Sent :
      (r : Outcome A) (cleanup : Act S (Unit {0})) (w : World S)
      → SendsOnly P cleanup
      → Sent P w.sent (after r cleanup w).sent
  after-Sent unfinished cleanup w s = Sent-refl P w.sent
  after-Sent (done a) cleanup w s = s.at w
  after-Sent (fail e) cleanup w s = s.at w
  after-Sent panic cleanup w s = s.at w

  pub SendsOnly-finally :
      (m : Act S A) (cleanup : Act S (Unit {0}))
      → SendsOnly P m
      → SendsOnly P cleanup
      → SendsOnly P (finally m cleanup)
  unfolding finally
  SendsOnly-finally m cleanup s t = record {
    at = λ w. Sent-trans (s.at w) (after-Sent (m w).0 cleanup (m w).1 t);
  }

  pub Sent-finally :
      (m : Act S A) (cleanup : Act S (Unit {0})) (w : World S)
      → Sent P w.sent (m w).1.sent
      → SendsOnly P cleanup
      → Sent P w.sent (finally m cleanup w).1.sent
  unfolding finally
  Sent-finally m cleanup w s t = Sent-trans s (after-Sent (m w).0 cleanup (m w).1 t)

  pub Sent-branch :
      (b : Bool) (m n : Act S A) (w : World S)
      → Sent P w.sent (m w).1.sent
      → Sent P w.sent (n w).1.sent
      → Sent P w.sent (branch b m n w).1.sent
  unfolding branch
  Sent-branch true m n w s t = s
  Sent-branch false m n w s t = t

  after_failure-Sent :
      (r : Outcome A) (cleanup : Act S (Unit {0})) (w : World S)
      → SendsOnly P cleanup
      → Sent P w.sent (after_failure r cleanup w).sent
  after_failure-Sent unfinished cleanup w s = Sent-refl P w.sent
  after_failure-Sent (done a) cleanup w s = Sent-refl P w.sent
  after_failure-Sent (fail e) cleanup w s = s.at w
  after_failure-Sent panic cleanup w s = s.at w

  pub SendsOnly-on_failure :
      (m : Act S A) (cleanup : Act S (Unit {0}))
      → SendsOnly P m
      → SendsOnly P cleanup
      → SendsOnly P (on_failure m cleanup)
  unfolding on_failure
  SendsOnly-on_failure m cleanup s t = record {
    at = λ w. Sent-trans (s.at w) (after_failure-Sent (m w).0 cleanup (m w).1 t);
  }

pub SendsOnly-pipe_stderr : {S : Type 0} {P : Output → Type 0} → SendsOnly P (pipe_stderr {S = S})
unfolding pipe_stderr
SendsOnly-pipe_stderr {P} = record { at = λ w. Sent-refl P w.sent }

pub SendsOnly-send :
    {S : Type 0} {P : Output → Type 0} (msg : Output) → P msg → SendsOnly P (send {S = S} msg)
unfolding send
SendsOnly-send msg p = record {
  at = λ w. record { new = msg ∷ []; added = refl; allowed = (p, tt) };
}

module _ {S : Type 0} {A B : Type 0} {P : Output → Type 0} where
  continue-Sent :
      (r : Outcome A) (f : A → Act S B) (w : World S)
      → ((a : A) → SendsOnly P (f a))
      → Sent P w.sent (continue r f w).1.sent
  continue-Sent (done a) f w s = (s a).at w
  continue-Sent (fail e) f w s = Sent-refl P w.sent
  continue-Sent panic f w s = Sent-refl P w.sent
  continue-Sent unfinished f w s = Sent-refl P w.sent

  pub SendsOnly-bind :
      (m : Act S A) (f : A → Act S B)
      → SendsOnly P m
      → ((a : A) → SendsOnly P (f a))
      → SendsOnly P (m >>= f)
  unfolding ◌>>=◌
  SendsOnly-bind m f s t = record {
    at = λ w. Sent-trans (s.at w) (continue-Sent (m w).0 f (m w).1 t);
  }

  -- In one world: what follows may use how the first action has succeeded.
  pub Sent-bind :
      (m : Act S A) (f : A → Act S B) (w : World S)
      → Sent P w.sent (m w).1.sent
      → ((a : A) (w' : World S) → m w ≡ (done a, w') → Sent P w'.sent (f a w').1.sent)
      → Sent P w.sent ((m >>= f) w).1.sent
  unfolding ◌>>=◌
  Sent-bind m f w s t = Sent-trans s (known (m w).0 (m w).1 refl)
    where
      known :
          (r : Outcome A) (w' : World S) → m w ≡ (r, w') → Sent P w'.sent (continue r f w').1.sent
      known (done a) w' e = t a w' e
      known (fail x) w' e = Sent-refl P w'.sent
      known panic w' e = Sent-refl P w'.sent
      known unfinished w' e = Sent-refl P w'.sent

module _ {S : Type 0} {A B : Type 0} {P : Output → Type 0} where
  pub SendsOnly-match_result :
      (r : Result A) (f : A → Act S B) (g : Error → Act S B)
      → ((a : A) → SendsOnly P (f a))
      → ((e : Error) → SendsOnly P (g e))
      → SendsOnly P (match_result r f g)
  unfolding match_result
  SendsOnly-match_result (ok a) f g s t = s a
  SendsOnly-match_result (err e) f g s t = t e

  pub SendsOnly-match_option :
      (o : Option A) (n : Act S B) (f : A → Act S B)
      → SendsOnly P n
      → ((a : A) → SendsOnly P (f a))
      → SendsOnly P (match_option o n f)
  unfolding match_option
  SendsOnly-match_option none n f s t = s
  SendsOnly-match_option (some a) n f s t = t a

pub ruleset sends_rules = (
  SendsOnly-pure, SendsOnly-throw, SendsOnly-panics, SendsOnly-out_of_fuel, SendsOnly-call,
  SendsOnly-blocking, SendsOnly-pipe_stderr, SendsOnly-ask, SendsOnly-attempt, SendsOnly-context,
  SendsOnly-branch, SendsOnly-finally, SendsOnly-on_failure, SendsOnly-send, SendsOnly-bind,
  SendsOnly-match_result, SendsOnly-match_option,
)
