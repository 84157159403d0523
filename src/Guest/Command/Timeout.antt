-- ===== src/Guest/Command/Timeout.antt =====
-- The read timeout of the guest agent's stream around a command.
use vmtest.Base.{ℕ, Option, Text, ok, ◌≡◌, refl, sym, ap, ◌≢◌}
use mathlib.Core.Path.{subst}
use vmtest.Base.Integers.{ℤ}
use vmtest.Host.{
  Host, World, Outcome, done, fail, panic, unfinished, call, finally, ignore_error, after, call-ok,
  ignore_error-host,
}
use vmtest.Host.Inversion.{closed-returned}
use vmtest.Qga.Version.{Version}
use vmtest.Qemu.Instance.{Qemu, CommandContext}
use vmtest.Guest.Command.{run_connected, run_command}

-- A timeout that could be set is the one that is read.
pub record KeepsTimeout (H : Host) : Type 0 where
  pub set_read :
      (t : Option ℕ) (s s' : H.State)
      → H.set_read_timeout t s ≡ (ok tt, s')
      → (H.read_timeout s').0 ≡ ok t

-- The timeout can be set: of a stream, each can but that of no time.
abbrev pub Settable : Host → Option ℕ → Type 0
Settable H t = (s : H.State) → (H.set_read_timeout t s).0 ≡ ok tt

module _ (H : Host) (fuel : ℕ) (render : CommandContext → Text) (version : Version)
    (laws : KeepsTimeout H) where
  last :
      (t : Option ℕ) (w : World H.State)
      → Settable H t
      → (H.read_timeout (ignore_error (call (H.set_read_timeout t)) w).1.host).0 ≡ ok t
  last t w settable =
      let s' : H.State = (H.set_read_timeout t w.host).1 in
      rw (ignore_error-host (H.set_read_timeout t) w)
        (laws.set_read t w.host s' (ap (λ r. (r, s')) (settable w.host)))

  restored :
      (t : Option ℕ) (r : Outcome ℤ) (w : World H.State)
      → Settable H t
      → r ≢ unfinished
      → (H.read_timeout (after r (ignore_error (call (H.set_read_timeout t))) w).host).0 ≡ ok t
  restored t unfinished w settable ne = absurd (ne refl)
  restored t (done rc) w settable ne = last t w settable
  restored t (fail e) w settable ne = last t w settable
  restored t panic w settable ne = last t w settable

  -- If a timeout that could be set is the one that is read, and the timeout can be read at the
  -- start and is one that can be set, then however the command ends, be it by an exit code, an
  -- error or a panic, the read timeout is what it was before.
  pub run_command-read_timeout :
      (q : Qemu) (w : World H.State) (t : Option ℕ) (s : H.State)
      → H.read_timeout w.host ≡ (ok t, s)
      → Settable H t
      → (run_command H fuel render version q w).0 ≢ unfinished
      → (H.read_timeout (run_command H fuel render version q w).1.host).0 ≡ ok t
  unfolding run_command finally
  run_command-read_timeout q w t s h settable =
      let e =
        call-ok H.read_timeout
          (λ old.
            finally (run_connected H fuel render version q)
              (ignore_error (call (H.set_read_timeout old))))
          w t s h in
      subst (λ r. (r.0 ≢ unfinished) → (H.read_timeout r.1.host).0 ≡ ok t) (sym e)
        (λ ne.
          let (r, w') = run_connected H fuel render version q (record w { host = s }) in
          restored t r w' settable
            (closed-returned r (ignore_error (call (H.set_read_timeout t)) w').0 ne).0)
