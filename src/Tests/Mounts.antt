-- ===== src/Tests/Mounts.antt =====
-- Mounting in a guest in which the first try of mount(1) fails.
use vmtest.Base.{
  ◌+◌, List, [], ◌∷◌, Text, none, some, true, false, text, ok, leb, ◌≡◌, ◌↔◌, refl, if◌then◌else◌,
}
use vmtest.Base.Integers.{pos}
use vmtest.Host.{blocking, send, Host, World, ◌>>=◌, done, ask, call, context, branch, pure, throw}
use vmtest.Guest.{run_in_vm, poll}
use vmtest.Guest.Mount.{require_zero, run_setup, mount_loop, mount_in_guest, setup_vm}
use vmtest.Guest.Mount.Success.{Mounted, mount_in_guest-Mounted}
use vmtest.Config.{Mount}
use vmtest.Output.{setup_start, setup_end}
use vmtest.Tests.Arguments.{machine}
use vmtest.Tests.Runs.{Clock, host, start, version}

-- A command takes a millisecond, and the one that ends behind two of them exits with 32.
abbrev slow_host : Host
slow_host = record host {
  guest_exec = λ args s. (ok (pos 1), record s { time = s.time + 1 });
  guest_exec_status = λ pid s. (
    ok (record {
      exited = true;
      exitcode = some (if leb s.time 1 then pos 0 else if leb s.time 2 then pos 32 else pos 0);
      out_data = none;
      err_data = none;
      out_truncated = none;
      err_truncated = none;
    }),
    s,
  );
}

abbrev mounted : World Clock
mounted = record start { host = record { time = 3; timeout = some 5000 } }

mounted_later :
    mount_in_guest slow_host 1 version (text "/mnt/vmtest") (text "vmtest-shared") false start
    ≡ (done tt, mounted)
unfolding blocking mount_in_guest mount_loop run_setup run_in_vm poll require_zero ◌>>=◌ ask call
    context branch pure throw
mounted_later = refl

mount_in_guest-Mounted_example :
    (mount_in_guest slow_host 1 version (text "/mnt/vmtest") (text "vmtest-shared") false start
      ≡ (done tt, mounted))
    ↔ Mounted slow_host 1 version (text "/mnt/vmtest") (text "vmtest-shared") false start mounted
mount_in_guest-Mounted_example =
    mount_in_guest-Mounted slow_host 1 version (text "/mnt/vmtest") (text "vmtest-shared") false
      start mounted

-- A mount of the configuration behind the shared directory.
abbrev one_mount : List (Text × Mount)
one_mount = (text "/mnt/data", record { host_path = text "/srv/data"; writable = false }) ∷ []

abbrev all_mounted : World Clock
all_mounted = record start {
  host = record { time = 5; timeout = some 5000 };
  sent = setup_start ∷ setup_end (ok tt) ∷ [];
}

setup_succeeds : setup_vm slow_host 1 version machine one_mount start ≡ (done tt, all_mounted)
unfolding blocking setup_vm ◌>>=◌ send context call branch pure ask
setup_succeeds = refl
