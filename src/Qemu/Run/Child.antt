-- ===== src/Qemu/Run/Child.antt =====
-- The child process: QEMU is gone behind `child_cleanup` of src/qemu.rs.
use vmtest.Base.{
  List, Option, none, some, arith, Bool, true, false, ◌&&◌, not, Text, Error, Result, ok, err, ◌≡◌,
  ◌≢◌, refl, ap, ◌∙◌,
}
use vmtest.Host.{
  closed, closed_failure, blocking, held, on_exit, Host, World, Act, Outcome, done, fail, panic,
  unfinished, of_result, caught, continue, ◌>>=◌, pure, call, attempt, match_result, match_option,
  after, after_failure, finally, on_failure, ignore_error, ignore_error-host,
}
use vmtest.Host.Inversion.{closed-returned, ignore_error-then}
use vmtest.Qemu.Boot.{child_cleanup}

-- The child process of a host, and whether an inspection of it or a wait for it has failed. Where
-- neither fails, `try_wait` says that it has exited only if it no longer runs, and it no longer
-- runs behind `wait`. A file that is removed does not start one.
pub record Child (H : Host) : Type 0 where
  pub runs : H.State → Bool
  pub failed : H.State → Bool
  pub not_spawned :
      (program : Text) (args : List Text) (s s' : H.State) (e : Error)
      → H.spawn program args s ≡ (err e, s')
      → (runs s && not (failed s)) ≡ false
      → (runs s' && not (failed s')) ≡ false
  pub not_inspected : (s s' : H.State) (e : Error) → H.try_wait s ≡ (err e, s') → failed s' ≡ true
  pub exited :
      (s s' : H.State) (success : Bool) → H.try_wait s ≡ (ok (some success), s') → runs s' ≡ false
  pub waited : (s s' : H.State) → H.wait s ≡ (ok tt, s') → runs s' ≡ false
  pub not_waited : (s s' : H.State) (e : Error) → H.wait s ≡ (err e, s') → failed s' ≡ true
  pub file_removed :
      (path : Text) (s : H.State)
      → (runs s && not (failed s)) ≡ false
      → (runs (H.remove_file path s).1 && not (failed (H.remove_file path s).1)) ≡ false

-- The child runs, although no inspection of it and no wait for it has failed.
abbrev pub remains : {H : Host} → Child H → H.State → Bool
remains C s = C.runs s && not (C.failed s)

module _ {H : Host} (C : Child H) where
  abbrev waiting : Act H.State (Unit {0})
  waiting = ignore_error (blocking (H.hangs on_exit) (call H.wait))

  -- `wait` is the last of it, whatever `kill` and it return.
  abbrev killed : Act H.State (Unit {0})
  killed = ignore_error (call H.kill) >>= λ _. waiting

  exited-remains : (s : H.State) → C.runs s ≡ false → remains C s ≡ false
  exited-remains s h = rw h refl

  failed-remains : (s : H.State) → C.failed s ≡ true → remains C s ≡ false
  failed-remains s h = ground arith

  wait-remains : (s : H.State) → remains C (H.wait s).1 ≡ false
  wait-remains s = through (H.wait s).0 (H.wait s).1 refl
    where
      through : (r : Result (Unit {0})) (s' : H.State) → H.wait s ≡ (r, s') → remains C s' ≡ false
      through (ok u) s' h = exited-remains s' (C.waited s s' h)
      through (err e) s' h = failed-remains s' (C.not_waited s s' e h)

  waiting-gone :
      (w : World H.State) → (waiting w).0 ≢ unfinished → remains C (waiting w).1.host ≡ false
  unfolding attempt ◌>>=◌ blocking
  waiting-gone w n = through (H.hangs on_exit w.host) n
    where
      through :
          (held_up : Bool)
          → (ignore_error (held held_up (call H.wait)) w).0 ≢ unfinished
          → remains C (ignore_error (held held_up (call H.wait)) w).1.host ≡ false
      through true n = absurd (n refl)
      through false n = ap (remains C) (ignore_error-host H.wait w) ∙ wait-remains w.host

  killed-gone :
      (w : World H.State) → (killed w).0 ≢ unfinished → remains C (killed w).1.host ≡ false
  killed-gone w n =
      let at_kill : World H.State = record w { host = (H.kill w.host).1 } in
      let e : killed w ≡ waiting at_kill = ignore_error-then H.kill waiting w in
      ap (λ r. remains C r.1.host) e ∙ waiting-gone at_kill (λ stuck. n (ap (λ r. r.0) e ∙ stuck))

  -- What follows the inspection.
  abbrev settle : Result (Option Bool) → Act H.State (Unit {0})
  settle status =
      match_result status (λ exited. match_option exited killed (λ _. pure tt)) (λ e. pure tt)

  -- Behind the cleanup the child is gone, or an inspection of it or the wait for it has failed.
  child_cleanup-gone :
      (w : World H.State)
      → (child_cleanup H w).0 ≢ unfinished
      → remains C (child_cleanup H w).1.host ≡ false
  unfolding child_cleanup attempt call ◌>>=◌ match_result match_option pure
  child_cleanup-gone w n = through (H.try_wait w.host).0 (H.try_wait w.host).1 refl n
    where
      through :
          (r : Result (Option Bool)) (s : H.State)
          → H.try_wait w.host ≡ (r, s)
          → (continue (caught (of_result r)) settle (record w { host = s })).0 ≢ unfinished
          → remains C (continue (caught (of_result r)) settle (record w { host = s })).1.host
            ≡ false
      through (err e) s h n = failed-remains s (C.not_inspected w.host s e h)
      through (ok none) s h n = killed-gone (record w { host = s }) n
      through (ok (some success)) s h n = exited-remains s (C.exited w.host s success h)

  module _ {A : Type 0} where
    -- Where an action has ended without a value, no child is left.
    abbrev pub Reaped : Outcome A → World H.State → Type 0
    Reaped (done a) w = Unit
    Reaped (fail e) w = remains C w.host ≡ false
    Reaped panic w = remains C w.host ≡ false
    Reaped unfinished w = Unit

    Reaped-closed :
        (r : Outcome A) (c : Outcome (Unit {0})) (w : World H.State)
        → (c ≢ unfinished → Reaped r w)
        → Reaped (closed r c) w
    Reaped-closed r (done u) w g = g (λ e. cc e)
    Reaped-closed r (fail e) w g = g (λ e. cc e)
    Reaped-closed r panic w g = g (λ e. cc e)
    Reaped-closed r unfinished w g = tt

    pub on_failure-Reaped :
        (m : Act H.State A) (w : World H.State)
        → Reaped (on_failure m (child_cleanup H) w).0 (on_failure m (child_cleanup H) w).1
    unfolding on_failure
    on_failure-Reaped m w = through (m w).0 (m w).1
      where
        through :
            (r : Outcome A) (w : World H.State)
            → Reaped (closed_failure r (child_cleanup H w).0) (after_failure r (child_cleanup H) w)
        through (done a) w = tt
        through (fail e) w = Reaped-closed (fail e) _ _ (child_cleanup-gone w)
        through panic w = Reaped-closed panic _ _ (child_cleanup-gone w)
        through unfinished w = Reaped-closed unfinished _ _ (λ n. tt)

    pub finally-gone :
        (m : Act H.State A) (w : World H.State)
        → (finally m (child_cleanup H) w).0 ≢ unfinished
        → remains C (finally m (child_cleanup H) w).1.host ≡ false
    unfolding finally
    finally-gone m w n =
        let (r, w') = m w in
        let (ended, cleaned) = closed-returned r (child_cleanup H w').0 n in
        through r w' ended cleaned
      where
        through :
            (r : Outcome A) (w : World H.State)
            → r ≢ unfinished
            → (child_cleanup H w).0 ≢ unfinished
            → remains C (after r (child_cleanup H) w).host ≡ false
        through (done a) w n k = child_cleanup-gone w k
        through (fail e) w n k = child_cleanup-gone w k
        through panic w n k = child_cleanup-gone w k
        through unfinished w n k = absurd (n refl)
