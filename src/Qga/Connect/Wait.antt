-- ===== src/Qga/Connect/Wait.antt =====
-- The connection to the guest agent ends: each round that fails takes a second.
use vmtest.Base.{
  ℕ, zero, suc, ◌+◌, ◌*◌, ◌≤◌, ◌<◌, Option, none, some, Bool, true, false, Text, Error, Result, ok,
  err, ltb, ◌≡◌, ◌≢◌, refl, arith,
}
use vmtest.Host.{
  Host, World, Act, Outcome, done, fail, panic, unfinished, continue, pure, throw, branch, ask,
  match_result, match_option, ◌>>=◌, ◌>>◌, blocking, call, attempt, caught, of_result, on_sync,
  on_info,
}
use vmtest.Host.Returns.{
  Clock, Returns, Returns-throw, Returns-pure, Returns-attempt, Returns-branch, Returns-call,
  Returns-now,
}
use vmtest.Host.Inversion.{blocking-free}
use vmtest.Qga.Version
use vmtest.Qga.Version.{Version}
use vmtest.Qga.Connect
use vmtest.Qga.Connect.{
  lift, has_exited, sync_agent, connect_round, connect_loop, kvm_timeout, emulate_timeout,
}

-- The action returns from the time `b` on, and where it asks for another round, it is a second
-- later.
record Pauses {H : Host} (L : Clock H) {A : Type 0} (b : ℕ) (m : Act H.State (Option A))
    : Type 0 where
  at :
      (w : World H.State)
      → b ≤ L.time w.host
      → ((m w).0 ≢ unfinished)
        × (b ≤ L.time (m w).1.host)
        × ((m w).0 ≡ done none → b + 1000 ≤ L.time (m w).1.host)

module _ {H : Host} (L : Clock H) {A : Type 0} (b : ℕ) where
  Pauses-some : (a : A) → Pauses L b (pure (some a))
  unfolding pure
  Pauses-some a = record { at = λ w h. (λ e. cc, h, λ e. absurd cc) }

  Pauses-throw : (e : Error) → Pauses L {A = A} b (throw e)
  unfolding throw
  Pauses-throw e = record { at = λ w h. (λ e. cc, h, λ e. absurd cc) }

  Pauses-sleep : Pauses L {A = A} b (ask (λ s. (tt, H.sleep 1000 s)) >>= λ _. pure none)
  unfolding ◌>>=◌ ask pure
  Pauses-sleep = record {
    at = λ w h.
        (λ e. cc, omega (arith, L.sleep 1000 w.host), λ e. omega (arith, L.sleep 1000 w.host));
  }

  Pauses-branch :
      (c : Bool) (m n : Act H.State (Option A))
      → Pauses L b m
      → Pauses L b n
      → Pauses L b (branch c m n)
  unfolding branch
  Pauses-branch true m n r s = r
  Pauses-branch false m n r s = s

module _ {H : Host} (L : Clock H) {A B : Type 0} (b : ℕ) where
  continue-Pauses :
      (r : Outcome A) (f : A → Act H.State (Option B)) (w : World H.State)
      → ((a : A) → Pauses L b (f a))
      → r ≢ unfinished
      → b ≤ L.time w.host
      → ((continue r f w).0 ≢ unfinished)
        × (b ≤ L.time (continue r f w).1.host)
        × ((continue r f w).0 ≡ done none → b + 1000 ≤ L.time (continue r f w).1.host)
  continue-Pauses (done a) f w s n h = (s a).at w h
  continue-Pauses (fail x) f w s n h = (λ e. cc, h, λ e. absurd cc)
  continue-Pauses panic f w s n h = (λ e. cc, h, λ e. absurd cc)
  continue-Pauses unfinished f w s n h = absurd (n refl)

  Pauses-bind :
      (m : Act H.State A) (f : A → Act H.State (Option B))
      → Returns L b m
      → ((a : A) → Pauses L b (f a))
      → Pauses L b (m >>= f)
  unfolding ◌>>=◌
  Pauses-bind m f r s = record {
    at = λ w h. let (n, k) = r.at w h in continue-Pauses (m w).0 f (m w).1 s n k;
  }

  Pauses-match_result :
      (r : Result A) (f : A → Act H.State (Option B)) (g : Error → Act H.State (Option B))
      → ((a : A) → Pauses L b (f a))
      → ((e : Error) → Pauses L b (g e))
      → Pauses L b (match_result r f g)
  unfolding match_result
  Pauses-match_result (ok a) f g s t = s a
  Pauses-match_result (err e) f g s t = t e

module _ {H : Host} (L : Clock H) {A : Type 0} (b : ℕ) where
  continue-retry :
      (r : Outcome (Option A)) (again : Act H.State A) (w : World H.State)
      → Returns L (b + 1000) again
      → r ≢ unfinished
      → b ≤ L.time w.host
      → (r ≡ done none → b + 1000 ≤ L.time w.host)
      → ((continue r (λ found. match_option found again pure) w).0 ≢ unfinished)
        × (b ≤ L.time (continue r (λ found. match_option found again pure) w).1.host)
  unfolding match_option pure
  continue-retry (done none) again w s n h k = let (x, y) = s.at w (k refl) in (x, omega arith)
  continue-retry (done (some a)) again w s n h k = (λ e. cc, h)
  continue-retry (fail x) again w s n h k = (λ e. cc, h)
  continue-retry panic again w s n h k = (λ e. cc, h)
  continue-retry unfinished again w s n h k = absurd (n refl)

  Returns-retry :
      (m : Act H.State (Option A)) (again : Act H.State A)
      → Pauses L b m
      → Returns L (b + 1000) again
      → Returns L b (m >>= λ found. match_option found again pure)
  unfolding ◌>>=◌
  Returns-retry m again r s = record {
    at = λ w h. let (n, k, l) = r.at w h in continue-retry (m w).0 again (m w).1 s n k l;
  }

module _ {H : Host} (L : Clock H) where
  lift-Returns : {A : Type 0} (b : ℕ) (r : Result A) → Returns L b (lift r)
  lift-Returns b (ok a) = Returns-pure L b a
  lift-Returns b (err e) = Returns-throw L b e

  -- What follows the timeout: each read from the stream ends, since it has one.
  module _ (b : ℕ) where
    abbrev Paused : {A : Type 0} → Outcome (Option A) × World H.State → Type 0
    Paused r =
        (r.0 ≢ unfinished) × (b ≤ L.time r.1.host) × (r.0 ≡ done none → b + 1000 ≤ L.time r.1.host)

    abbrev informing : Act H.State (Option Version)
    informing = do
      version ← blocking (H.hangs on_info) (call H.guest_info)
      parsed ← lift (Version.new version)
      pure (some parsed)

    informing-Paused :
        (w : World H.State) → b ≤ L.time w.host → L.timed w.host ≡ true → Paused (informing w)
    unfolding ◌>>=◌
    informing-Paused w h timed =
        let (n, k) = (Returns-call L b H.guest_info L.guest_info).at w h in
        rw (blocking-free (H.hangs on_info) (call H.guest_info) w (L.informs w.host timed)) (
          continue-Pauses L b (call H.guest_info w).0 _ (call H.guest_info w).1
            (λ text. Pauses-bind L b _ _ (lift-Returns b _) (λ version. Pauses-some L b version)) n
            k)

    abbrev syncing : ℕ → Act H.State (Option Version)
    syncing v = do
      synced ← attempt (blocking (H.hangs on_sync) (call (H.guest_sync v)))
      match_result synced (λ _. informing) (λ e. do ask (λ s. (tt, H.sleep 1000 s)); pure none)

    syncing-Paused :
        (v : ℕ) (w : World H.State)
        → b ≤ L.time w.host
        → L.timed w.host ≡ true
        → Paused (syncing v w)
    unfolding ◌>>=◌ attempt call match_result
    syncing-Paused v w h timed =
        rw (blocking-free (H.hangs on_sync) (call (H.guest_sync v)) w (L.syncs w.host timed)) (
          through (H.guest_sync v w.host).0 (record w { host = (H.guest_sync v w.host).1 })
            (omega (arith, L.guest_sync v w.host)) (L.timed-sync v w.host timed))
      where
        through :
            (r : Result (Unit {0})) (w' : World H.State)
            → b ≤ L.time w'.host
            → L.timed w'.host ≡ true
            → Paused (
                continue
                  (caught (of_result r))
                  (λ synced.
                    match_result synced
                      (λ _. informing)
                      (λ e. ask (λ s. (tt, H.sleep 1000 s)) >>= λ _. pure none))
                  w')
        through (ok u) w' h timed = informing-Paused w' h timed
        through (err e) w' h timed = (Pauses-sleep L b).at w' h

    abbrev drawing : Act H.State (Option Version)
    drawing = ask (H.gen_range 1 10_000) >>= λ v. syncing v

    sync_agent-Pauses : Pauses L b (sync_agent H)
    unfolding sync_agent ◌>>=◌ call ask
    sync_agent-Pauses = record {
      at = λ w h.
          through w (H.set_read_timeout (some 5000) w.host).0
            (H.set_read_timeout (some 5000) w.host).1 refl
            (omega (arith, L.set_read_timeout (some 5000) w.host, h));
    }
      where
        through :
            (w : World H.State) (r : Result (Unit {0})) (s : H.State)
            → H.set_read_timeout (some 5000) w.host ≡ (r, s)
            → b ≤ L.time s
            → Paused (continue (of_result r) (λ _. drawing) (record w { host = s }))
        through w (ok u) s e h =
            syncing-Paused (H.gen_range 1 10_000 s).0
              (record w { host = (H.gen_range 1 10_000 s).1 })
              (omega (arith, L.gen_range 1 10_000 s))
              (L.timed-gen_range 1 10_000 s (L.timed-set 5000 w.host s e))
        through w (err x) s e h = (λ e. cc, h, λ e. absurd cc)

  connect_round-Pauses : (b : ℕ) (sock : Text) → Pauses L b (connect_round H sock)
  unfolding connect_round
  connect_round-Pauses b sock =
      Pauses-bind L b _ _ (Returns-attempt L b _ (Returns-call L b _ L.try_wait)) (λ status.
        Pauses-branch L b (has_exited status) _ _ (Pauses-throw L b _) (
          Pauses-bind L b _ _ (Returns-attempt L b _ (Returns-call L b _ (L.connect sock)))
            (λ stream.
              Pauses-match_result L b stream _ _ (λ _. sync_agent-Pauses b)
                (λ e. Pauses-sleep L b))))

  loop_step :
      (fuel end_time b : ℕ) (sock : Text)
      → ((t : ℕ) → b ≤ t → t < end_time → Returns L (t + 1000) (connect_loop H fuel end_time sock))
      → Returns L b (connect_loop H (suc fuel) end_time sock)
  unfolding connect_loop
  loop_step fuel end_time b sock again = Returns-now L b _ (λ t h.
      Returns-branch L t (ltb t end_time) _ _
        (λ e. Returns-retry L t _ _ (connect_round-Pauses t sock) (again t h (ground arith)))
        (λ e. Returns-throw L t _))

  connect_loop-Returns :
      (fuel end_time b : ℕ) (sock : Text)
      → end_time ≤ b + 1000 * fuel
      → Returns L b (connect_loop H (suc fuel) end_time sock)
  connect_loop-Returns zero end_time b sock h =
      loop_step zero end_time b sock (λ t k lt. absurd (omega arith))
  connect_loop-Returns (suc fuel) end_time b sock h =
      loop_step (suc fuel) end_time b sock
        (λ t k lt. connect_loop-Returns fuel end_time (t + 1000) sock (omega arith))

  -- A hundred and twenty rounds of a second cover both timeouts.
  pub new-Returns :
      (fuel b : ℕ) (sock : Text) (has_kvm : Bool)
      → 120 < fuel
      → Returns L b (Connect.new H fuel sock has_kvm)
  unfolding Connect.new
  new-Returns zero b sock has_kvm lt = absurd (omega arith)
  new-Returns (suc fuel) b sock true lt =
      Returns-now L b _ (λ t h. connect_loop-Returns fuel (t + kvm_timeout) t sock (omega arith))
  new-Returns (suc fuel) b sock false lt =
      Returns-now L b _
        (λ t h. connect_loop-Returns fuel (t + emulate_timeout) t sock (omega arith))
