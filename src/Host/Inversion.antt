-- ===== src/Host/Inversion.antt =====
-- What an action that succeeds went through, and how one is put together from its parts.
use vmtest.Base.{◌≢◌, Bool, true, false, ◌≡◌, refl, ap, Text, Result, ok, err}
use vmtest.Host.{
  closed, closed_failure, blocking, held, World, Outcome, done, fail, panic, unfinished, Act,
  continue, ◌>>=◌, context, with_context, on_failure, after_failure, pure, call, attempt, caught,
  of_result, ignore_error, ◌>>◌, finally,
}

module _ {S A B : Type 0} (m : Act S A) (f : A → Act S B) (w : World S) where
  pub bind-done : (a : A) (w' : World S) → m w ≡ (done a, w') → (m >>= f) w ≡ f a w'
  unfolding ◌>>=◌
  bind-done a w' e = ap (λ r. continue r.0 f r.1) e

  -- What a sequence that succeeds went through.
  pub bind-inv :
      (b : B) (end : World S)
      → (m >>= f) w ≡ (done b, end)
      → (a : A) × (w' : World S) × (m w ≡ (done a, w')) × (f a w' ≡ (done b, end))
  unfolding ◌>>=◌
  bind-inv b end = through (m w) refl
    where
      through :
          (r : Outcome A × World S)
          → m w ≡ r
          → continue r.0 f r.1 ≡ (done b, end)
          → (a : A) × (w' : World S) × (m w ≡ (done a, w')) × (f a w' ≡ (done b, end))
      through (done a, w') e h = (a, w', e, h)
      through (fail x, w') e h = absurd (cc h)
      through (panic, w') e h = absurd (cc h)
      through (unfinished, w') e h = absurd (cc h)

module _ {S A : Type 0} (c : Text) (m : Act S A) (w : World S) (a : A) (end : World S) where
  pub context-done : m w ≡ (done a, end) → context c m w ≡ (done a, end)
  unfolding context
  context-done e = ap (λ r. (with_context c r.0, r.1)) e

  pub context-inv : context c m w ≡ (done a, end) → m w ≡ (done a, end)
  unfolding context
  context-inv = through (m w) refl
    where
      through :
          (r : Outcome A × World S)
          → m w ≡ r
          → ◌≡◌ {A = Outcome A × World S} (with_context c r.0, r.1) (done a, end)
          → m w ≡ (done a, end)
      through (done b, w') e h = cc (e, h)
      through (fail x, w') e h = absurd (cc h)
      through (panic, w') e h = absurd (cc h)
      through (unfinished, w') e h = absurd (cc h)

module _ {A : Type 0} where
  pub closed-returned :
      (r : Outcome A) (c : Outcome (Unit {0}))
      → closed r c ≢ unfinished
      → (r ≢ unfinished) × (c ≢ unfinished)
  closed-returned r (done u) n = (n, λ e. cc e)
  closed-returned r (fail x) n = (n, λ e. cc e)
  closed-returned r panic n = (n, λ e. cc e)
  closed-returned r unfinished n = absurd (n refl)

  pub closed-returns :
      (r : Outcome A) (c : Outcome (Unit {0}))
      → r ≢ unfinished
      → c ≢ unfinished
      → closed r c ≢ unfinished
  closed-returns r (done u) n k = n
  closed-returns r (fail x) n k = n
  closed-returns r panic n k = n
  closed-returns r unfinished n k = absurd (k refl)

  pub closed_failure-returns :
      (r : Outcome A) (c : Outcome (Unit {0}))
      → r ≢ unfinished
      → c ≢ unfinished
      → closed_failure r c ≢ unfinished
  closed_failure-returns (done a) c n k = λ e. cc e
  closed_failure-returns (fail x) c n k = closed-returns (fail x) c n k
  closed_failure-returns panic c n k = closed-returns panic c n k
  closed_failure-returns unfinished c n k = absurd (n refl)

  pub closed-inv :
      (r : Outcome A) (c : Outcome (Unit {0})) (a : A) → closed r c ≡ done a → r ≡ done a
  closed-inv r (done u) a e = e
  closed-inv r (fail x) a e = e
  closed-inv r panic a e = e
  closed-inv r unfinished a e = absurd (cc e)

module _ {S A : Type 0} (m : Act S A) (cleanup : Act S (Unit {0})) (w : World S) (a : A)
    (end : World S) where
  pub on_failure-inv : on_failure m cleanup w ≡ (done a, end) → m w ≡ (done a, end)
  unfolding on_failure
  on_failure-inv = through (m w) refl
    where
      through :
          (r : Outcome A × World S)
          → m w ≡ r
          → ◌≡◌ {A = Outcome A × World S}
              (closed_failure r.0 (cleanup r.1).0, after_failure r.0 cleanup r.1)
              (done a, end)
          → m w ≡ (done a, end)
      through (done b, w') e h = cc (e, h)
      through (fail x, w') e h =
          absurd (cc (closed-inv (fail x) (cleanup w').0 a (ap (λ r. r.0) h)))
      through (panic, w') e h = absurd (cc (closed-inv panic (cleanup w').0 a (ap (λ r. r.0) h)))
      through (unfinished, w') e h =
          absurd (cc (closed-inv unfinished (cleanup w').0 a (ap (λ r. r.0) h)))

-- A call that does not hang is that call.
pub blocking-free :
    {S A : Type 0} (hangs : S → Bool) (m : Act S A) (w : World S)
    → hangs w.host ≡ false
    → blocking hangs m w ≡ m w
unfolding blocking
blocking-free hangs m w e = ap (λ b. held b m w) e

-- A call that has returned did not hang.
pub blocking-inv :
    {S A : Type 0} (hangs : S → Bool) (m : Act S A) (w : World S) (a : A) (end : World S)
    → blocking hangs m w ≡ (done a, end)
    → (hangs w.host ≡ false) × (m w ≡ (done a, end))
unfolding blocking
blocking-inv {S} {A} hangs m w a end = through (hangs w.host)
  where
    through :
        (held_up : Bool)
        → held held_up m w ≡ (done a, end)
        → (held_up ≡ false) × (m w ≡ (done a, end))
    through true e = absurd (cc e)
    through false e = (refl, e)

-- A dropped error does not keep the rest from being done.
pub ignore_error-then :
    {S : Type 0} (op : S → Result (Unit {0}) × S) (rest : Act S (Unit {0})) (w : World S)
    → (ignore_error (call op) >> rest) w ≡ rest (record w { host = (op w.host).1 })
unfolding attempt call pure ◌>>=◌
ignore_error-then op rest w = same (op w.host).0
  where
    same :
        (r : Result (Unit {0}))
        → continue
            (continue
              (caught (of_result r))
              (λ _ w'. (done tt, w'))
              (record w { host = (op w.host).1 })).0
            (λ _. rest)
            (continue
              (caught (of_result r))
              (λ _ w'. (done tt, w'))
              (record w { host = (op w.host).1 })).1
          ≡ rest (record w { host = (op w.host).1 })
    same (ok a) = refl
    same (err e) = refl

pub call-done :
    {S A : Type 0} (op : S → Result A × S) (w : World S) (a : A) (s : S)
    → op w.host ≡ (ok a, s)
    → call op w ≡ (done a, record w { host = s })
unfolding call
call-done op w a s e = ap (λ r. (of_result r.0, record w { host = r.1 })) e

pub call-inv :
    {S A : Type 0} (op : S → Result A × S) (w : World S) (a : A) (end : World S)
    → call op w ≡ (done a, end)
    → (s : S) × (op w.host ≡ (ok a, s)) × (end ≡ record w { host = s })
unfolding call
call-inv {S} {A} op w a end = through (op w.host) refl
  where
    through :
        (r : Result A × S)
        → op w.host ≡ r
        → ◌≡◌ {A = Outcome A × World S} (of_result r.0, record w { host = r.1 }) (done a, end)
        → (s : S) × (op w.host ≡ (ok a, s)) × (end ≡ record w { host = s })
    through (ok b, s) e h = (s, cc (e, h), cc h)
    through (err x, s) e h = absurd (cc h)

pub finally-inv :
    {S A : Type 0} (m : Act S A) (cleanup : Act S (Unit {0})) (w : World S) (a : A) (end : World S)
    → finally m cleanup w ≡ (done a, end)
    → (w' : World S) × (m w ≡ (done a, w'))
unfolding finally
finally-inv m cleanup w a end e =
    let w' = (m w).1 in
    (w', ap (λ o. (o, w')) (closed-inv (m w).0 (cleanup w').0 a (ap (λ r. r.0) e)))

pub attempt-inv :
    {S A : Type 0} (m : Act S A) (w : World S) (a : A) (end : World S)
    → attempt m w ≡ (done (ok a), end)
    → m w ≡ (done a, end)
unfolding attempt
attempt-inv {S} {A} m w a end = through (m w) refl
  where
    through :
        (r : Outcome A × World S)
        → m w ≡ r
        → ◌≡◌ {A = Outcome (Result A) × World S} (caught r.0, r.1) (done (ok a), end)
        → m w ≡ (done a, end)
    through (done b, w') e h = cc (e, h)
    through (fail x, w') e h = absurd (cc h)
    through (panic, w') e h = absurd (cc h)
    through (unfinished, w') e h = absurd (cc h)
