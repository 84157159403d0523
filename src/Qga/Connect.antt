-- ===== src/Qga/Connect.antt =====
-- `QgaWrapper` of src/qga.rs: connecting to the guest agent, and its commands. The stream is part
-- of the host; the wrapper itself holds the version.
pub mod Wait
use vmtest.Base.{
  ℕ, zero, suc, ◌+◌, [], ◌∷◌, Option, none, some, Bool, true, false, Text, text, Result, ok, err,
  ltb, if◌then◌else◌,
}
use vmtest.Base.Integers.{ℤ}
use vmtest.Host.{
  branch, Host, Act, GuestExec, ExecStatus, ◌>>=◌, ◌>>◌, pure, throw, out_of_fuel, call, blocking,
  on_sync, on_info, on_exec, on_status, ask, attempt, context, match_result, match_option,
}
use vmtest.Qga.Version
use vmtest.Qga.Version.{Version}

abbrev pub kvm_timeout : ℕ
kvm_timeout = 80_000

abbrev pub emulate_timeout : ℕ
emulate_timeout = 120_000

-- `?` on a pure result
abbrev pub lift : {S A : Type 0} → Result A → Act S A
lift (ok a) = pure a
lift (err e) = throw e

-- `if let Ok(Some(_)) = ..`
abbrev pub has_exited : Result (Option Bool) → Bool
has_exited (ok (some status)) = true
has_exited (ok none) = false
has_exited (err e) = false

module _ (H : Host) where
  -- The rest of a round behind a connection: `none` asks for another round.
  unfoldable pub sync_agent : Act H.State (Option Version)
  unfolding Version.new
  sync_agent = do
    call (H.set_read_timeout (some 5000))
    sync_value ← ask (H.gen_range 1 10_000)
    synced ← attempt (blocking (H.hangs on_sync) (call (H.guest_sync sync_value)))
    match_result synced
        (λ _. do
          version ← blocking (H.hangs on_info) (call H.guest_info)
          parsed ← lift (Version.new version)
          pure (some parsed))
        (λ e. do ask (λ s. (tt, H.sleep 1000 s)); pure none)

  -- One round of the loop.
  unfoldable pub connect_round : Text → Act H.State (Option Version)
  unfolding sync_agent
  connect_round sock = do
    status ← attempt (call H.try_wait)
    branch (has_exited status)
        (throw (text "Qemu exited while trying to connect to QGA. Did the guest panic?" ∷ []))
        (do
          stream ← attempt (call (H.connect sock))
          match_result stream (λ _. sync_agent)
              (λ e. do ask (λ s. (tt, H.sleep 1000 s)); pure none))

  -- `while Instant::now() < end`
  unfoldable pub connect_loop : ℕ → ℕ → Text → Act H.State Version
  connect_loop zero end_time sock = out_of_fuel
  connect_loop (suc fuel) end_time sock = do
    time ← ask H.now
    let again = connect_loop fuel end_time sock
    branch (ltb time end_time) (do found ← connect_round sock; match_option found again pure)
        (throw (text "Timed out waiting for QGA connection" ∷ []))

  -- `QgaWrapper::new`
  unfoldable pub new : ℕ → Text → Bool → Act H.State Version
  unfolding connect_loop connect_round
  new fuel sock has_kvm = do
    time ← ask H.now
    connect_loop fuel (time + (if has_kvm then kvm_timeout else emulate_timeout)) sock

  unfoldable pub guest_exec : GuestExec → Act H.State ℤ
  guest_exec args =
      context (text "Error running guest_exec")
        (blocking (H.hangs on_exec) (call (H.guest_exec args)))

  unfoldable pub guest_exec_status : ℤ → Act H.State ExecStatus
  guest_exec_status pid =
      context (text "error running guest_exec_status")
        (blocking (H.hangs on_status) (call (H.guest_exec_status pid)))
