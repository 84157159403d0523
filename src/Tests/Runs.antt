-- ===== src/Tests/Runs.antt =====
-- src/qemu.rs on a host on which everything works, and whose commands take half a second.
use vmtest.Base.{
  Bool, not, ℕ, ◌+◌, [], ◌∷◌, ◌++◌, Option, none, some, true, false, Text, text, text_beq, text_eq,
  ok, map, leb, ◌≡◌, ◌≢◌, refl, sym, ap, arith, pop, trim_end, trim_start, is_whitespace,
}
use vmtest.Base.Integers.{pos}
use vmtest.Output.{
  boot, command, boot_start, boot_end, setup_start, setup_end, command_start, command_end,
}
use vmtest.Host.{
  on_exit, on_stderr, on_handshake, on_quit, on_sync, on_info, on_exec, on_status, blocking,
  pipe_stderr, spawned, ◌>>=◌, call, finally, context, ask, branch, attempt, match_result,
  match_option, pure, send, on_failure, Host, World, done, unfinished, ExecStatus,
}
use vmtest.Host.Returns.{Clock as HostClock}
use vmtest.Qemu.Boot.{boot_vm}
use vmtest.Qemu.Boot.Termination.{boot_vm_returns}
use vmtest.Qga.Version.{Version}
use vmtest.Qemu.Instance.{Qemu, CommandContext}
use vmtest.Qemu.Run.{run, run_body}
use vmtest.Vmtest.RunOne.Cleanup.{removed, run-removed}
use vmtest.Guest.Command.{run_command}
use vmtest.Guest.Command.Timeout.{KeepsTimeout, run_command-read_timeout}
use vmtest.Guest.Streams.{
  command_updates, boot_updates, command_updates-stream_of, boot_updates-stream_of,
}
use vmtest.Base.Strings.Laws.{Lacks}
use vmtest.Tests.Arguments.{machine, socks}

-- The time, and the read timeout of the agent's stream.
pub record Clock : Type 0 where
  pub time : ℕ
  pub timeout : Option ℕ

abbrev pub status_at : ℕ → ExecStatus
status_at time = record {
  exited = leb 500 time;
  exitcode = some (pos 0);
  out_data = none;
  err_data = none;
  out_truncated = none;
  err_truncated = none;
}

-- Without a timeout the agent keeps silent.
abbrev stuck : Option ℕ → Bool
stuck none = true
stuck (some t) = false

abbrev pub host : Host
host = record {
  State = Clock;
  hangs = λ c s. elim c [
    | on_exit ↦ false
    | on_stderr ↦ false
    | on_handshake ↦ false
    | on_quit ↦ false
    | on_sync ↦ stuck s.timeout
    | on_info ↦ stuck s.timeout
    | on_exec ↦ false
    | on_status ↦ false
  ];
  now = λ s. (s.time, s);
  sleep = λ period s. record s { time = s.time + period };
  spawn = λ program args s. (ok tt, s);
  try_wait = λ s. (ok none, s);
  kill = λ s. (ok tt, s);
  wait = λ s. (ok tt, s);
  read_stderr = λ s. (([], none), s);
  try_exists = λ path s. (ok true, s);
  remove_file = λ path s. (ok tt, s);
  connect = λ path s. (ok tt, s);
  try_clone = λ s. (ok tt, s);
  handshake = λ s. (ok tt, s);
  quit = λ s. (ok tt, s);
  read_timeout = λ s. (ok s.timeout, s);
  set_read_timeout = λ t s. (ok tt, record s { timeout = t });
  gen_range = λ low high s. (low, s);
  guest_sync = λ value s. (ok tt, s);
  guest_info = λ s. (ok (text "8.1.0"), s);
  guest_exec = λ args s. (ok (pos 1), s);
  guest_exec_status = λ pid s. (ok (status_at s.time), s);
  spawn_help = λ program s. (spawned, s);
  tempfile_in = λ dir s. (ok (dir ++ text "/vmtest-init12345.sh"), s);
  write_all = λ path contents s. (ok tt, s);
  get_mode = λ path s. (ok 0o600, s);
  set_mode = λ path mode s. (ok tt, s);
  env_vars = [];
  env_path = none;
  temp_dir = text "/tmp";
}

abbrev pub start : World Clock
start = record {
  host = record { time = 0; timeout = some 5000 };
  sent = [];
  has_stderr = true;
  has_init = true;
}

abbrev qemu : Qemu
qemu = record {
  program = text "qemu-system-x86_64";
  args = [];
  socks = socks;
  command = text "true";
  host_shared = text "/home";
  rootfs = text "/";
  arch = text "x86_64";
  mounts = [];
  image = false;
  stdout_piped = true;
}

abbrev pub render : CommandContext → Text
render c = c.command

host_laws : KeepsTimeout host
host_laws = record { set_read = λ t s s' h. rw (sym (ap (λ r. r.1) h)) refl }

abbrev pub version : Version
version = record { major = 8; minor = 1; patch = 0 }

command_done : (run_command host 3 render version qemu start).0 ≡ done (pos 0)
unfolding blocking pipe_stderr run_command ◌>>=◌ call finally context ask branch attempt
    match_result pure
command_done = refl

command_returns : (run_command host 3 render version qemu start).0 ≢ unfinished
command_returns e = cc (command_done, e)

-- The whole run returns, and these are its updates.
run_sent :
    let (outcome, end) = run host 3 machine render qemu start in
    (outcome ≡ done tt)
    × (end.sent
        ≡ boot_start
          ∷ boot_end (ok tt)
          ∷ setup_start
          ∷ setup_end (ok tt)
          ∷ command_start
          ∷ command_end (ok (pos 0))
          ∷ [])
unfolding blocking pipe_stderr run finally ◌>>=◌ attempt send context call branch text_beq pure
    on_failure ask match_option match_result trim_end trim_start is_whitespace
run_sent = (refl, refl)

run_returns : (run host 3 machine render qemu start).0 ≢ unfinished
run_returns e = cc (run_sent.0, e)

run-removed_example : run host 3 machine render qemu start ≡ (
  (run_body host 3 machine render qemu start).0,
  record ((run_body host 3 machine render qemu start).1) {
    host = removed host qemu.socks (run_body host 3 machine render qemu start).1.host;
    has_init = false;
  },
)
run-removed_example = run-removed host 3 machine render qemu start run_returns

run_command-read_timeout_example :
    (host.read_timeout (run_command host 3 render version qemu start).1.host).0 ≡ ok (some 5000)
run_command-read_timeout_example =
    run_command-read_timeout host 3 render version host_laws qemu start (some 5000) start.host refl
      (λ s. refl) command_returns

Lacks-of_short : Lacks b'\n' (text "ab")
Lacks-of_short = ((λ e. cc), ((λ e. cc), tt))

command_updates-stream_of_example :
    command_updates (text "ab\nab") ≡ map command (text "ab" ∷ []) ++ map command (text "ab" ∷ [])
command_updates-stream_of_example =
    command_updates-stream_of (text "ab" ∷ []) (text "ab") (Lacks-of_short, tt) Lacks-of_short

boot_updates-stream_of_example :
    boot_updates (text "ab\nab")
    ≡ map boot (text "ab" ∷ []) ++ map (λ l. boot (pop l)) (text "ab" ∷ [])
boot_updates-stream_of_example =
    boot_updates-stream_of (text "ab" ∷ []) (text "ab") (Lacks-of_short, tt) Lacks-of_short

abbrev timed_stuck : (t : Option ℕ) → not (stuck t) ≡ true → stuck t ≡ false
timed_stuck none h = sym h
timed_stuck (some t) h = refl

abbrev pub host_clock : HostClock host
host_clock = record {
  time = λ s. s.time;
  exits = λ s. refl;
  closes_stderr = λ s. refl;
  greets = λ s. refl;
  quits = λ s. refl;
  timed = λ s. not (stuck s.timeout);
  timed-set = λ t s s' h. rw (sym (ap (λ r. r.1) h)) refl;
  timed-gen_range = λ low high s timed. timed;
  timed-sync = λ v s timed. timed;
  syncs = λ s timed. timed_stuck s.timeout timed;
  informs = λ s timed. timed_stuck s.timeout timed;
  now_reads = λ s. refl;
  now = λ s. omega arith;
  sleep = λ d s. omega arith;
  spawn = λ program args s. omega arith;
  try_wait = λ s. omega arith;
  kill = λ s. omega arith;
  wait = λ s. omega arith;
  read_stderr = λ s. omega arith;
  try_exists = λ p s. omega arith;
  connect = λ p s. omega arith;
  try_clone = λ s. omega arith;
  handshake = λ s. omega arith;
  set_read_timeout = λ t s. omega arith;
  gen_range = λ low high s. omega arith;
  guest_sync = λ v s. omega arith;
  guest_info = λ s. omega arith;
  quit = λ s. omega arith;
  read_timeout = λ s. omega arith;
  remove_file = λ p s. omega arith;
  spawn_help = λ program s. omega arith;
  tempfile_in = λ p s. omega arith;
  write_all = λ p contents s. omega arith;
  get_mode = λ p s. omega arith;
  set_mode = λ p mode s. omega arith;
}

boot_vm_returns_example : (boot_vm host 121 machine qemu start).0 ≢ unfinished
boot_vm_returns_example = boot_vm_returns host_clock 121 machine qemu start (omega arith)
