-- ===== src/Qemu/Boot/Wait.antt =====
-- The loops of the boot that wait for QEMU's sockets end: each of their rounds takes 50 ms.
use vmtest.Base.{
  ℕ, zero, suc, ◌+◌, ◌-◌, ◌*◌, ◌≤◌, ◌<◌, Bool, true, false, Text, ltb, ◌≢◌, arith, if◌then◌else◌,
}
use vmtest.Host.{Host, World, unfinished, pure, panics}
use vmtest.Host.Returns.{
  Clock, Returns, Returns-throw, Returns-pure, Returns-ask, Returns-branch, Returns-call,
  Returns-sleep, Returns-now, Returns-bind, returns_rules,
}
use vmtest.Qemu.Boot.{
  take_stderr, extract_child_stderr, check_child, sockets_ready, wait_loop, wait_for_qemu,
  connect_retry, connect_to_uds,
}

module _ {H : Host} (L : Clock H) where
  take_stderr-Returns : (b : ℕ) → Returns L b take_stderr
  unfolding take_stderr pure panics
  take_stderr-Returns b = record { at = λ w h. go w w.has_stderr h }
    where
      go :
          (w : World H.State) (has : Bool)
          → b ≤ L.time w.host
          → ((if has then pure tt (record w { has_stderr = false }) else panics w).0 ≢ unfinished)
            × (b
                ≤ L.time
                    (if has then pure tt (record w { has_stderr = false }) else panics w).1.host)
      go w true h = (λ e. cc, h)
      go w false h = (λ e. cc, h)

  pub extract_child_stderr-Returns : (b : ℕ) → Returns L b (extract_child_stderr H)
  unfolding extract_child_stderr
  extract_child_stderr-Returns b =
      search (returns_rules, take_stderr-Returns, Returns-ask, L.closes_stderr, L.read_stderr)

  check_child-Returns : (b : ℕ) → Returns L b (check_child H)
  unfolding check_child
  check_child-Returns b = search (returns_rules, extract_child_stderr-Returns, L.try_wait) depth 8

  sockets_ready-Returns : (b : ℕ) (qga qmp : Text) → Returns L b (sockets_ready H qga qmp)
  unfolding sockets_ready
  sockets_ready-Returns b qga qmp = search (returns_rules, L.try_exists) depth 8

  -- A round that goes on ends at least 50 ms later.
  wait_step :
      (fuel start b : ℕ) (qga qmp : Text)
      → ((t : ℕ) → b ≤ t → t - start < 5000 → Returns L (t + 50) (wait_loop H fuel start qga qmp))
      → Returns L b (wait_loop H (suc fuel) start qga qmp)
  unfolding wait_loop
  wait_step fuel start b qga qmp again = Returns-now L b _ (λ t h.
      Returns-branch L t (ltb (t - start) 5000) _ _
        (λ e.
          let later = again t h (ground arith) in
          Returns-bind L t _ _ (check_child-Returns t) (λ _.
            Returns-bind L t _ _ (sockets_ready-Returns t qga qmp) (λ ready.
              Returns-branch L t ready _ _ (λ _. Returns-pure L t tt)
                (λ _. Returns-sleep L t 50 _ later))))
        (λ e. Returns-throw L t _))

  wait_loop-Returns :
      (fuel start b : ℕ) (qga qmp : Text)
      → start + 5000 ≤ b + 50 * fuel
      → Returns L b (wait_loop H (suc fuel) start qga qmp)
  wait_loop-Returns zero start b qga qmp h =
      wait_step zero start b qga qmp (λ t k lt. absurd (omega arith))
  wait_loop-Returns (suc fuel) start b qga qmp h =
      wait_step (suc fuel) start b qga qmp
        (λ t k lt. wait_loop-Returns fuel start (t + 50) qga qmp (omega arith))

  -- A hundred rounds of 50 ms cover the five seconds.
  pub wait_for_qemu-Returns :
      (fuel b : ℕ) (qga qmp : Text) → 100 < fuel → Returns L b (wait_for_qemu H fuel qga qmp)
  unfolding wait_for_qemu
  wait_for_qemu-Returns zero b qga qmp lt = absurd (omega arith)
  wait_for_qemu-Returns (suc fuel) b qga qmp lt =
      Returns-now L b _ (λ t h. wait_loop-Returns fuel t t qga qmp (omega arith))

  connect_step :
      (fuel start b : ℕ) (path : Text)
      → ((t : ℕ) → b ≤ t → t - start < 5000 → Returns L (t + 50) (connect_retry H fuel start path))
      → Returns L b (connect_retry H (suc fuel) start path)
  unfolding connect_retry
  connect_step fuel start b path again = Returns-now L b _ (λ t h.
      Returns-branch L t (ltb (t - start) 5000) _ _
        (λ e.
          let later = Returns-sleep L t 50 _ (again t h (ground arith)) in
          search (returns_rules, L.connect))
        (λ e. Returns-call L t _ (L.connect path)))

  connect_retry-Returns :
      (fuel start b : ℕ) (path : Text)
      → start + 5000 ≤ b + 50 * fuel
      → Returns L b (connect_retry H (suc fuel) start path)
  connect_retry-Returns zero start b path h =
      connect_step zero start b path (λ t k lt. absurd (omega arith))
  connect_retry-Returns (suc fuel) start b path h =
      connect_step (suc fuel) start b path
        (λ t k lt. connect_retry-Returns fuel start (t + 50) path (omega arith))

  pub connect_to_uds-Returns :
      (fuel b : ℕ) (path : Text) → 100 < fuel → Returns L b (connect_to_uds H fuel path)
  unfolding connect_to_uds
  connect_to_uds-Returns zero b path lt = absurd (omega arith)
  connect_to_uds-Returns (suc fuel) b path lt =
      Returns-now L b _ (λ t h. connect_retry-Returns fuel t t path (omega arith))
