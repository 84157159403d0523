-- ===== src/Tests/Boot.antt =====
-- The wait for QEMU's sockets, where these appear after a while.
use vmtest.Base.{ℕ, true, false, text, leb, ok, ◌≡◌, ◌<◌, ◌↔◌, refl, arith}
use vmtest.Host.{Host, World, done}
use vmtest.Qemu.Boot.{wait_for_qemu}
use vmtest.Qemu.Boot.Appears.{Appears, appears_now, appears_later, wait_for_qemu-Appears}
use vmtest.Tests.Children.{Box, box, idle_box}

-- The sockets are there from the time 100 on.
abbrev late_box : Host
late_box = record box { try_exists = λ path s. (ok (leb 100 s.time), s) }

abbrev running_at : ℕ → Box
running_at time = record { time = time; running = true }

abbrev before_boot : World Box
before_boot = record idle_box { host = running_at 0 }

abbrev behind_boot : World Box
behind_boot = record idle_box { host = running_at 100 }

third_round :
    Appears late_box 0
      (text "/tmp/qga.sock")
      (text "/tmp/qmp.sock")
      2
      (running_at 0)
      (running_at 100)
third_round =
    appears_later (running_at 0, running_at 0, false, false, omega arith, refl, refl, refl, refl)
      (appears_later
        (running_at 50, running_at 50, false, false, omega arith, refl, refl, refl, refl)
        (appears_now
          (running_at 100, running_at 100, true, true, omega arith, refl, refl, refl, refl)))

wait_for_qemu-Appears_example :
    (wait_for_qemu late_box 3 (text "/tmp/qga.sock") (text "/tmp/qmp.sock") before_boot
      ≡ (done tt, behind_boot))
    ↔ (n : ℕ) × (s : Box) × Appears late_box 0
        (text "/tmp/qga.sock")
        (text "/tmp/qmp.sock")
        n
        (running_at 0)
        s
      × (n < 3)
      × (behind_boot ≡ record before_boot { host = s })
wait_for_qemu-Appears_example =
    wait_for_qemu-Appears late_box 3 (text "/tmp/qga.sock") (text "/tmp/qmp.sock") before_boot
      behind_boot

appeared :
    wait_for_qemu late_box 3 (text "/tmp/qga.sock") (text "/tmp/qmp.sock") before_boot
    ≡ (done tt, behind_boot)
appeared =
    (wait_for_qemu-Appears late_box 3 (text "/tmp/qga.sock") (text "/tmp/qmp.sock") before_boot
        behind_boot).1
      (2, running_at 100, third_round, omega arith, refl)
