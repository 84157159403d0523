-- ===== src/Host/Moves/Chain.antt =====
-- Actions that follow one another: chains, matches on a result, and errors that are dropped.
use vmtest.Base.{some, Error, Result, ok, err, ◌≡◌, refl, sym}
use mathlib.Core.Path.{subst}
use vmtest.Output.Order.{Phase, idle, follow, Stays}
use vmtest.Host.{
  World, Act, Outcome, done, fail, panic, unfinished, caught, continue, ◌>>=◌, attempt,
  match_result, ignore_error,
}
use vmtest.Host.Sends.{SendsOnly}
use vmtest.Host.Moves.{Moves, At, Ends, Either, Ends-caught, Moves-pure, Moves-stay}

module _ {S A : Type 0} {D : A → Phase → Type 0} {F G : Phase → Type 0} where
  pub Moves-attempt : (p : Phase) (m : Act S A) → Moves p m D F → Moves p (attempt m) (Either D F) G
  unfolding attempt
  Moves-attempt p m v = record {
    at = λ w h. let (q, g, e) = v.at w h in (q, g, Ends-caught D F G (m w).0 q e);
  }

module _ {S A B : Type 0} {D : A → Phase → Type 0} {E : B → Phase → Type 0}
    {F : Phase → Type 0} where
  continue-Moves :
      (r : Outcome A) (f : A → Act S B) (w : World S) (q : Phase)
      → ((a : A) (p : Phase) → D a p → Moves p (f a) E F)
      → follow idle w.sent ≡ some q
      → Ends D F r q
      → (q' : Phase) × (follow idle (continue r f w).1.sent ≡ some q')
        × Ends E F (continue r f w).0 q'
  continue-Moves (done a) f w q u g e = (u a q e).at w g
  continue-Moves (fail x) f w q u g e = (q, g, e)
  continue-Moves panic f w q u g e = (q, g, tt)
  continue-Moves unfinished f w q u g e = (q, g, tt)

  pub Moves-bind :
      (p : Phase) (m : Act S A) (f : A → Act S B)
      → Moves p m D F
      → ((a : A) (q : Phase) → D a q → Moves q (f a) E F)
      → Moves p (m >>= f) E F
  unfolding ◌>>=◌
  Moves-bind p m f v u = record {
    at = λ w h. let (q, g, e) = v.at w h in continue-Moves (m w).0 f (m w).1 q u g e;
  }

-- The first action ends in a known phase.
pub Moves-then :
    {S A B : Type 0} {E : B → Phase → Type 0} {F : Phase → Type 0} (p q : Phase) (m : Act S A)
    (f : A → Act S B)
    → Moves p m (At q) F
    → ((a : A) → Moves q (f a) E F)
    → Moves p (m >>= f) E F
Moves-then {E} {F} p q m f v u =
    Moves-bind p m f v (λ a r e. subst (λ x. Moves x (f a) E F) (sym e) (u a))

module _ {S A B : Type 0} {D : A → Phase → Type 0} {G : Phase → Type 0} {E : B → Phase → Type 0}
    {F : Phase → Type 0} where
  match-Moves :
      (f : A → Act S B) (g : Error → Act S B)
      → ((a : A) (q : Phase) → D a q → Moves q (f a) E F)
      → ((e : Error) (q : Phase) → G q → Moves q (g e) E F)
      → (r : Result A) (q : Phase) → Either D G r q
      → Moves q (match_result r f g) E F
  unfolding match_result
  match-Moves f g u v (ok a) q d = u a q d
  match-Moves f g u v (err e) q d = v e q d

  -- A `match` on the result of an action.
  pub Moves-match :
      (p : Phase) (m : Act S A) (f : A → Act S B) (g : Error → Act S B)
      → Moves p m D G
      → ((a : A) (q : Phase) → D a q → Moves q (f a) E F)
      → ((e : Error) (q : Phase) → G q → Moves q (g e) E F)
      → Moves p (attempt m >>= λ r. match_result r f g) E F
  Moves-match p m f g h u v =
      Moves-bind p (attempt m) (λ r. match_result r f g) (Moves-attempt p m h) (match-Moves f g u v)

-- An attempt does not fail.
pub Moves-tried :
    {S A : Type 0} {F : Phase → Type 0} (p : Phase) (m : Act S A)
    → SendsOnly (Stays p) m
    → Moves p (attempt m) (At p) F
unfolding attempt
Moves-tried {A} {F} p m s = record {
  at = λ w h.
      let (q, g, e) = (Moves-attempt {F = λ x. x ≡ p} {G = F} p m (Moves-stay p m s refl)).at w h in
      (q, g, Ends-same (m w).0 q e);
}
  where
    Ends-same :
        (r : Outcome A) (q : Phase)
        → Ends (Either (At p) (λ x. x ≡ p)) F (caught r) q
        → Ends (At p) F (caught r) q
    Ends-same (done a) q e = e
    Ends-same (fail x) q e = e
    Ends-same panic q e = tt
    Ends-same unfinished q e = tt

-- An error that is dropped.
pub Moves-ignore_error :
    {S A : Type 0} {F : Phase → Type 0} (p : Phase) (m : Act S A)
    → SendsOnly (Stays p) m
    → Moves p (ignore_error m) (At p) F
Moves-ignore_error p m s =
    Moves-then p p (attempt m) _ (Moves-tried p m s) (λ r. Moves-pure p tt refl)
