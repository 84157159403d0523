-- ===== src/Host/Moves.antt =====
-- How an action moves the state machine of the updates, one rule for each way to build an action.
pub mod Chain
use vmtest.Base.{
  List, [], ◌∷◌, ◌++◌, some, Bool, true, false, Text, Error, Result, ok, err, ◌≡◌, refl, sym, ◌∙◌,
  ap,
}
use mathlib.Core.Path.{subst}
use vmtest.Base.Panics.{◌>>=◌ as bind_option}
use vmtest.Output.{Output}
use vmtest.Output.Order.{Phase, idle, advance, follow, follow-append, Stays, follow-Stays}
use vmtest.Host.{
  closed, closed_failure, World, Act, Outcome, done, fail, panic, unfinished, caught, with_context,
  continue, ◌>>=◌, pure, panics, throw, send, attempt, context, after, finally, after_failure,
  on_failure, match_result, branch, ignore_error,
}
use vmtest.Host.Sends.{Sent, SendsOnly}

-- What holds of the phase at the end: `D` if the action succeeds, `F` if it fails. Nothing is
-- said where it panics or has not returned.
abbrev pub Ends :
    {A : Type 0} → (A → Phase → Type 0) → (Phase → Type 0) → Outcome A → Phase → Type 0
Ends D F (done a) q = D a q
Ends D F (fail e) q = F q
Ends D F panic q = Unit
Ends D F unfinished q = Unit

-- From phase `p` all updates are accepted, however the action ends.
pub record Moves {S A : Type 0} (p : Phase) (m : Act S A) (D : A → Phase → Type 0)
    (F : Phase → Type 0) : Type 0 where
  pub at :
      (w : World S)
      → follow idle w.sent ≡ some p
      → (q : Phase) × (follow idle (m w).1.sent ≡ some q) × Ends D F (m w).0 q

-- The action ends in the phase `p`.
abbrev pub At : {A : Type 0} → Phase → A → Phase → Type 0
At p a q = q ≡ p

follow-more :
    {p q : Phase} (xs ys : List Output)
    → follow idle xs ≡ some p
    → follow p ys ≡ some q
    → follow idle (xs ++ ys) ≡ some q
follow-more {p} {q} xs ys h k =
    follow-append idle xs ys ∙ ap (λ o. bind_option o (λ r. follow r ys)) h ∙ k

follow-Sent :
    {p : Phase} (xs ys : List Output)
    → Sent (Stays p) xs ys
    → follow idle xs ≡ some p
    → follow idle ys ≡ some p
follow-Sent {p} xs ys s h =
    ap (follow idle) s.added ∙ follow-more xs s.new h (follow-Stays p s.new s.allowed)

-- The two ways in which a matched result leaves the phase.
abbrev pub Either :
    {A : Type 0} → (A → Phase → Type 0) → (Phase → Type 0) → Result A → Phase → Type 0
Either D F (ok a) q = D a q
Either D F (err e) q = F q

Ends-context :
    {A : Type 0} (D : A → Phase → Type 0) (F : Phase → Type 0) (c : Text) (r : Outcome A)
    (q : Phase)
    → Ends D F r q
    → Ends D F (with_context c r) q
Ends-context D F c (done a) q h = h
Ends-context D F c (fail e) q h = h
Ends-context D F c panic q h = h
Ends-context D F c unfinished q h = h

Ends-caught :
    {A : Type 0} (D : A → Phase → Type 0) (F G : Phase → Type 0) (r : Outcome A) (q : Phase)
    → Ends D F r q
    → Ends (Either D F) G (caught r) q
Ends-caught D F G (done a) q h = h
Ends-caught D F G (fail e) q h = h
Ends-caught D F G panic q h = h
Ends-caught D F G unfinished q h = h

Ends-stay : {A : Type 0} (F : Phase → Type 0) (r : Outcome A) (p : Phase) → F p → Ends (At p) F r p
Ends-stay F (done a) p f = refl
Ends-stay F (fail e) p f = f
Ends-stay F panic p f = tt
Ends-stay F unfinished p f = tt

follow-after :
    {S A : Type 0} (r : Outcome A) (cleanup : Act S (Unit {0})) (w : World S) {q : Phase}
    → SendsOnly (Stays q) cleanup
    → follow idle w.sent ≡ some q
    → follow idle (after r cleanup w).sent ≡ some q
follow-after unfinished cleanup w s h = h
follow-after (done a) cleanup w s h = follow-Sent w.sent _ (s.at w) h
follow-after (fail e) cleanup w s h = follow-Sent w.sent _ (s.at w) h
follow-after panic cleanup w s h = follow-Sent w.sent _ (s.at w) h

follow-after_failure :
    {S A : Type 0} (r : Outcome A) (cleanup : Act S (Unit {0})) (w : World S) {q : Phase}
    → SendsOnly (Stays q) cleanup
    → follow idle w.sent ≡ some q
    → follow idle (after_failure r cleanup w).sent ≡ some q
follow-after_failure unfinished cleanup w s h = h
follow-after_failure (done a) cleanup w s h = h
follow-after_failure (fail e) cleanup w s h = follow-Sent w.sent _ (s.at w) h
follow-after_failure panic cleanup w s h = follow-Sent w.sent _ (s.at w) h

module _ {A : Type 0} (D : A → Phase → Type 0) (F : Phase → Type 0) where
  Ends-closed :
      (r : Outcome A) (c : Outcome (Unit {0})) (q : Phase) → Ends D F r q → Ends D F (closed r c) q
  Ends-closed r (done u) q e = e
  Ends-closed r (fail x) q e = e
  Ends-closed r panic q e = e
  Ends-closed r unfinished q e = tt

  Ends-closed_failure :
      (r : Outcome A) (c : Outcome (Unit {0})) (q : Phase)
      → Ends D F r q
      → Ends D F (closed_failure r c) q
  Ends-closed_failure (done a) c q e = e
  Ends-closed_failure (fail x) c q e = Ends-closed (fail x) c q e
  Ends-closed_failure panic c q e = Ends-closed panic c q e
  Ends-closed_failure unfinished c q e = Ends-closed unfinished c q e

module _ {S A : Type 0} {D : A → Phase → Type 0} {F : Phase → Type 0} where
  pub Moves-pure : (p : Phase) (a : A) → D a p → Moves p (pure {S = S} a) D F
  unfolding pure
  Moves-pure p a d = record { at = λ w h. (p, h, d) }

  pub Moves-panics : (p : Phase) → Moves p (panics {S = S}) D F
  unfolding panics
  Moves-panics p = record { at = λ w h. (p, h, tt) }

  pub Moves-throw : (p : Phase) (e : Error) → F p → Moves p (throw {S = S} {A = A} e) D F
  unfolding throw
  Moves-throw p e f = record { at = λ w h. (p, h, f) }

  pub Moves-context :
      (p : Phase) (c : Text) (m : Act S A) → Moves p m D F → Moves p (context c m) D F
  unfolding context
  Moves-context p c m v = record {
    at = λ w h. let (q, g, e) = v.at w h in (q, g, Ends-context D F c (m w).0 q e);
  }

  pub Moves-branch :
      (p : Phase) (b : Bool) (m n : Act S A)
      → (b ≡ true → Moves p m D F)
      → (b ≡ false → Moves p n D F)
      → Moves p (branch b m n) D F
  unfolding branch
  Moves-branch p true m n v u = v refl
  Moves-branch p false m n v u = u refl

  pub Moves-finally :
      (p : Phase) (m : Act S A) (cleanup : Act S (Unit {0}))
      → Moves p m D F
      → ((q : Phase) → SendsOnly (Stays q) cleanup)
      → Moves p (finally m cleanup) D F
  unfolding finally
  Moves-finally p m cleanup v s = record {
    at = λ w h.
        let (q, g, e) = v.at w h in
        (
          q,
          follow-after (m w).0 cleanup (m w).1 (s q) g,
          Ends-closed D F (m w).0 (cleanup (m w).1).0 q e,
        );
  }

  pub Moves-on_failure :
      (p : Phase) (m : Act S A) (cleanup : Act S (Unit {0}))
      → Moves p m D F
      → ((q : Phase) → SendsOnly (Stays q) cleanup)
      → Moves p (on_failure m cleanup) D F
  unfolding on_failure
  Moves-on_failure p m cleanup v s = record {
    at = λ w h.
        let (q, g, e) = v.at w h in
        (
          q,
          follow-after_failure (m w).0 cleanup (m w).1 (s q) g,
          Ends-closed_failure D F (m w).0 (cleanup (m w).1).0 q e,
        );
  }

-- More may be known at the end than is said.
pub Moves-imp :
    {S A : Type 0} {D E : A → Phase → Type 0} {F : Phase → Type 0} (p : Phase) (m : Act S A)
    → Moves p m D F
    → ((a : A) (q : Phase) → D a q → E a q)
    → Moves p m E F
Moves-imp {A} {D} {E} {F} p m v f = record {
  at = λ w h. let (q, g, e) = v.at w h in (q, g, weaken (m w).0 q e);
}
  where
    weaken : (r : Outcome A) (q : Phase) → Ends D F r q → Ends E F r q
    weaken (done a) q d = f a q d
    weaken (fail e) q d = d
    weaken panic q d = tt
    weaken unfinished q d = tt

-- An action whose updates all keep the phase.
pub Moves-stay :
    {S A : Type 0} {F : Phase → Type 0} (p : Phase) (m : Act S A)
    → SendsOnly (Stays p) m
    → F p
    → Moves p m (At p) F
Moves-stay {F} p m s f = record {
  at = λ w h. (p, follow-Sent w.sent _ (s.at w) h, Ends-stay F (m w).0 p f);
}

pub Moves-send :
    {S : Type 0} {D : Unit {0} → Phase → Type 0} {F : Phase → Type 0} (p q : Phase) (msg : Output)
    → advance p msg ≡ some q
    → D tt q
    → Moves p (send {S = S} msg) D F
unfolding send
Moves-send p q msg e d = record {
  at = λ w h. (q, follow-more w.sent (msg ∷ []) h (ap (λ o. bind_option o (λ r. some r)) e), d);
}
