-- ===== src/Host/Returns.antt =====
-- Which actions return, and that time does not run backwards meanwhile: one rule for each way to
-- build an action.
use vmtest.Base.{
  ℕ, ◌+◌, ◌≤◌, List, Option, none, some, Bool, true, false, Text, Error, Result, ok, err, ◌≡◌, ◌≢◌,
  refl, arith,
}
use vmtest.Output.{Output}
use vmtest.Host.{
  pipe_stderr, blocking, held, on_exit, on_stderr, on_handshake, on_quit, on_sync, on_info, Host,
  World, Act, Outcome, done, fail, panic, unfinished, of_result, caught, with_context, continue,
  ◌>>=◌, pure, throw, panics, call, ask, attempt, context, match_result, match_option, branch,
  after, after_failure, finally, on_failure, send,
}
use vmtest.Host.Inversion.{closed-returns, closed_failure-returns}

-- The clock of a host. Sleeping takes at least the time that was asked for, and no operation that
-- the loops call sets the clock back. And which of the calls that wait for another process return.
pub record Clock (H : Host) : Type 0 where
  pub time : H.State → ℕ
  pub now_reads : (s : H.State) → (H.now s).0 ≡ time s
  pub now : (s : H.State) → time s ≤ time (H.now s).1
  pub sleep : (d : ℕ) (s : H.State) → time s + d ≤ time (H.sleep d s)
  pub spawn :
      (program : Text) (args : List Text) (s : H.State) → time s ≤ time (H.spawn program args s).1
  pub try_wait : (s : H.State) → time s ≤ time (H.try_wait s).1
  pub kill : (s : H.State) → time s ≤ time (H.kill s).1
  pub wait : (s : H.State) → time s ≤ time (H.wait s).1
  pub read_stderr : (s : H.State) → time s ≤ time (H.read_stderr s).1
  -- QEMU exits where it is waited for, the reading of its stderr ends, QMP answers, and a read from
  -- the agent's stream ends where the stream has a timeout.
  pub exits : (s : H.State) → H.hangs on_exit s ≡ false
  pub closes_stderr : (s : H.State) → H.hangs on_stderr s ≡ false
  pub greets : (s : H.State) → H.hangs on_handshake s ≡ false
  pub quits : (s : H.State) → H.hangs on_quit s ≡ false
  pub timed : H.State → Bool
  pub timed-set :
      (t : ℕ) (s s' : H.State) → H.set_read_timeout (some t) s ≡ (ok tt, s') → timed s' ≡ true
  pub timed-gen_range :
      (low high : ℕ) (s : H.State) → timed s ≡ true → timed (H.gen_range low high s).1 ≡ true
  pub timed-sync : (v : ℕ) (s : H.State) → timed s ≡ true → timed (H.guest_sync v s).1 ≡ true
  pub syncs : (s : H.State) → timed s ≡ true → H.hangs on_sync s ≡ false
  pub informs : (s : H.State) → timed s ≡ true → H.hangs on_info s ≡ false
  pub try_exists : (p : Text) (s : H.State) → time s ≤ time (H.try_exists p s).1
  pub connect : (p : Text) (s : H.State) → time s ≤ time (H.connect p s).1
  pub try_clone : (s : H.State) → time s ≤ time (H.try_clone s).1
  pub handshake : (s : H.State) → time s ≤ time (H.handshake s).1
  pub set_read_timeout : (t : Option ℕ) (s : H.State) → time s ≤ time (H.set_read_timeout t s).1
  pub gen_range : (low high : ℕ) (s : H.State) → time s ≤ time (H.gen_range low high s).1
  pub guest_sync : (v : ℕ) (s : H.State) → time s ≤ time (H.guest_sync v s).1
  pub guest_info : (s : H.State) → time s ≤ time (H.guest_info s).1
  pub quit : (s : H.State) → time s ≤ time (H.quit s).1
  pub read_timeout : (s : H.State) → time s ≤ time (H.read_timeout s).1
  pub remove_file : (p : Text) (s : H.State) → time s ≤ time (H.remove_file p s).1
  pub spawn_help : (program : Text) (s : H.State) → time s ≤ time (H.spawn_help program s).1
  pub tempfile_in : (p : Text) (s : H.State) → time s ≤ time (H.tempfile_in p s).1
  pub write_all : (p contents : Text) (s : H.State) → time s ≤ time (H.write_all p contents s).1
  pub get_mode : (p : Text) (s : H.State) → time s ≤ time (H.get_mode p s).1
  pub set_mode : (p : Text) (mode : ℕ) (s : H.State) → time s ≤ time (H.set_mode p mode s).1

-- From the time `b` on, the action returns, and it is not before `b` then.
pub record Returns {H : Host} (L : Clock H) {A : Type 0} (b : ℕ) (m : Act H.State A) : Type 0 where
  pub at :
      (w : World H.State) → b ≤ L.time w.host → ((m w).0 ≢ unfinished) × (b ≤ L.time (m w).1.host)

module _ {H : Host} (L : Clock H) {A : Type 0} (b : ℕ) where
  pub Returns-pure : (a : A) → Returns L b (pure a)
  unfolding pure
  Returns-pure a = record { at = λ w h. (λ e. cc, h) }

  pub Returns-throw : (e : Error) → Returns L {A = A} b (throw e)
  unfolding throw
  Returns-throw e = record { at = λ w h. (λ e. cc, h) }

  pub Returns-panics : Returns L {A = A} b panics
  unfolding panics
  Returns-panics = record { at = λ w h. (λ e. cc, h) }

  of_result_returns : (r : Result A) → of_result r ≢ unfinished
  of_result_returns (ok a) e = cc
  of_result_returns (err x) e = cc

  pub Returns-call :
      (op : H.State → Result A × H.State)
      → ((s : H.State) → L.time s ≤ L.time (op s).1)
      → Returns L b (call op)
  unfolding call
  Returns-call op k = record {
    at = λ w h. (of_result_returns (op w.host).0, omega (arith, k w.host));
  }

  pub Returns-ask :
      (op : H.State → A × H.State)
      → ((s : H.State) → L.time s ≤ L.time (op s).1)
      → Returns L b (ask op)
  unfolding ask
  Returns-ask op k = record { at = λ w h. (λ e. cc, omega (arith, k w.host)) }

  held-Returns :
      (b : ℕ) (held_up : Bool) (m : Act H.State A) (w : World H.State)
      → held_up ≡ false
      → ((m w).0 ≢ unfinished) × (b ≤ L.time (m w).1.host)
      → ((held held_up m w).0 ≢ unfinished) × (b ≤ L.time (held held_up m w).1.host)
  held-Returns b true m w e r = absurd (cc e)
  held-Returns b false m w e r = r

  pub Returns-blocking :
      (hangs : H.State → Bool) (m : Act H.State A)
      → ((s : H.State) → hangs s ≡ false)
      → Returns L b m
      → Returns L b (blocking hangs m)
  unfolding blocking
  Returns-blocking hangs m never r = record {
    at = λ w h. held-Returns b (hangs w.host) m w (never w.host) (r.at w h);
  }

  caught_returns : (r : Outcome A) → r ≢ unfinished → caught r ≢ unfinished
  caught_returns (done a) h e = cc
  caught_returns (fail x) h e = cc
  caught_returns panic h e = cc
  caught_returns unfinished h e = h refl

  pub Returns-attempt : (m : Act H.State A) → Returns L b m → Returns L b (attempt m)
  unfolding attempt
  Returns-attempt m r = record {
    at = λ w h. let (n, k) = r.at w h in (caught_returns (m w).0 n, k);
  }

  with_context_returns : (c : Text) (r : Outcome A) → r ≢ unfinished → with_context c r ≢ unfinished
  with_context_returns c (done a) h e = cc
  with_context_returns c (fail x) h e = cc
  with_context_returns c panic h e = cc
  with_context_returns c unfinished h e = h refl

  pub Returns-context : (c : Text) (m : Act H.State A) → Returns L b m → Returns L b (context c m)
  unfolding context
  Returns-context c m r = record {
    at = λ w h. let (n, k) = r.at w h in (with_context_returns c (m w).0 n, k);
  }

  pub Returns-branch :
      (c : Bool) (m n : Act H.State A)
      → (c ≡ true → Returns L b m)
      → (c ≡ false → Returns L b n)
      → Returns L b (branch c m n)
  unfolding branch
  Returns-branch true m n r s = r refl
  Returns-branch false m n r s = s refl

module _ {H : Host} (L : Clock H) {A B : Type 0} (b : ℕ) where
  pub continue-Returns :
      (r : Outcome A) (f : A → Act H.State B) (w : World H.State)
      → ((a : A) → Returns L b (f a))
      → r ≢ unfinished
      → b ≤ L.time w.host
      → ((continue r f w).0 ≢ unfinished) × (b ≤ L.time (continue r f w).1.host)
  continue-Returns (done a) f w s n h = (s a).at w h
  continue-Returns (fail x) f w s n h = (λ e. cc, h)
  continue-Returns panic f w s n h = (λ e. cc, h)
  continue-Returns unfinished f w s n h = absurd (n refl)

  pub Returns-bind :
      (m : Act H.State A) (f : A → Act H.State B)
      → Returns L b m
      → ((a : A) → Returns L b (f a))
      → Returns L b (m >>= f)
  unfolding ◌>>=◌
  Returns-bind m f r s = record {
    at = λ w h. let (n, k) = r.at w h in continue-Returns (m w).0 f (m w).1 s n k;
  }

  pub Returns-match_result :
      (r : Result A) (f : A → Act H.State B) (g : Error → Act H.State B)
      → ((a : A) → Returns L b (f a))
      → ((e : Error) → Returns L b (g e))
      → Returns L b (match_result r f g)
  unfolding match_result
  Returns-match_result (ok a) f g s t = s a
  Returns-match_result (err e) f g s t = t e

  pub Returns-match_option :
      (o : Option A) (n : Act H.State B) (f : A → Act H.State B)
      → Returns L b n
      → ((a : A) → Returns L b (f a))
      → Returns L b (match_option o n f)
  unfolding match_option
  Returns-match_option none n f s t = s
  Returns-match_option (some a) n f s t = t a

module _ {H : Host} (L : Clock H) {A : Type 0} (b : ℕ) where
  after_failure-Returns :
      (r : Outcome A) (cleanup : Act H.State (Unit {0})) (w : World H.State)
      → Returns L b cleanup
      → b ≤ L.time w.host
      → b ≤ L.time (after_failure r cleanup w).host
  after_failure-Returns (done a) cleanup w s h = h
  after_failure-Returns (fail e) cleanup w s h = (s.at w h).1
  after_failure-Returns panic cleanup w s h = (s.at w h).1
  after_failure-Returns unfinished cleanup w s h = h

  pub Returns-on_failure :
      (m : Act H.State A) (cleanup : Act H.State (Unit {0}))
      → Returns L b m
      → Returns L b cleanup
      → Returns L b (on_failure m cleanup)
  unfolding on_failure
  Returns-on_failure m cleanup r s = record {
    at = λ w h.
        let (n, k) = r.at w h in
        (
          closed_failure-returns (m w).0 (cleanup (m w).1).0 n (s.at (m w).1 k).0,
          after_failure-Returns (m w).0 cleanup (m w).1 s k,
        );
  }

  after-Returns :
      (r : Outcome A) (cleanup : Act H.State (Unit {0})) (w : World H.State)
      → Returns L b cleanup
      → b ≤ L.time w.host
      → b ≤ L.time (after r cleanup w).host
  after-Returns (done a) cleanup w s h = (s.at w h).1
  after-Returns (fail e) cleanup w s h = (s.at w h).1
  after-Returns panic cleanup w s h = (s.at w h).1
  after-Returns unfinished cleanup w s h = h

  pub Returns-finally :
      (m : Act H.State A) (cleanup : Act H.State (Unit {0}))
      → Returns L b m
      → Returns L b cleanup
      → Returns L b (finally m cleanup)
  unfolding finally
  Returns-finally m cleanup r s = record {
    at = λ w h.
        let (n, k) = r.at w h in
        (
          closed-returns (m w).0 (cleanup (m w).1).0 n (s.at (m w).1 k).0,
          after-Returns (m w).0 cleanup (m w).1 s k,
        );
  }

  -- Behind a pause it is later.
  pub Returns-sleep :
      (d : ℕ) (m : Act H.State A)
      → Returns L (b + d) m
      → Returns L b (ask (λ s. (tt, H.sleep d s)) >>= λ _. m)
  unfolding ◌>>=◌ ask
  Returns-sleep d m r = record {
    at = λ w h.
        let (n, k) =
          r.at (record w { host = H.sleep d w.host }) (omega (arith, L.sleep d w.host)) in
        (n, omega arith);
  }

  -- The time that is read is not before `b`, and what follows is not before the time that was read.
  pub Returns-now :
      (f : ℕ → Act H.State A)
      → ((t : ℕ) → b ≤ t → Returns L t (f t))
      → Returns L b (ask H.now >>= f)
  unfolding ◌>>=◌ ask
  Returns-now f r = record {
    at = λ w h.
        let (n, k) =
          (r (H.now w.host).0 (omega (arith, L.now_reads w.host))).at
            (record w { host = (H.now w.host).1 })
            (omega (arith, L.now w.host, L.now_reads w.host)) in
        (n, omega (arith, L.now_reads w.host));
  }

pub Returns-send : {H : Host} (L : Clock H) (b : ℕ) (msg : Output) → Returns L b (send msg)
unfolding send
Returns-send L b msg = record { at = λ w h. (λ e. cc, h) }

pub Returns-pipe_stderr : {H : Host} (L : Clock H) (b : ℕ) → Returns L b pipe_stderr
unfolding pipe_stderr
Returns-pipe_stderr L b = record { at = λ w h. (λ e. cc, h) }

pub ruleset returns_rules = (
  Returns-pipe_stderr, Returns-pure, Returns-throw, Returns-panics, Returns-call, Returns-blocking,
  Returns-attempt, Returns-context, Returns-branch, Returns-send, Returns-on_failure,
  Returns-finally, Returns-bind, Returns-match_result, Returns-match_option,
)
