-- ===== src/Tests/Children.antt =====
-- A target on a host whose child process is started and waited for, and its command line.
use vmtest.Base.{
  ℕ, ◌+◌, List, [], ◌∷◌, Option, none, some, Bool, true, false, Text, text, text_beq, trim_end,
  trim_start, Error, Result, ok, err, arith, ◌≡◌, ◌≢◌, refl, sym, ap, ◌&&◌, not, if◌then◌else◌,
}
use vmtest.Base.Integers.{pos}
use vmtest.Output.{Output}
use vmtest.Host.{
  blocking, pipe_stderr, spawned, ◌>>=◌, call, finally, context, ask, branch, attempt, match_result,
  match_option, pure, send, on_failure, Host, World, done, unfinished,
}
use vmtest.Config.{Target}
use vmtest.Qemu.Invocation.{Sockets, qemu_args}
use vmtest.Qemu.Instance.{Qemu}
use vmtest.Qemu.New
use vmtest.Qemu.New.{make}
use vmtest.Qemu.Run.Child.{Child}
use vmtest.Vmtest.RunOne.{run_one}
use vmtest.Vmtest.Validate.{check_target}
use vmtest.Ui.Program.{ui_loop, updates_of}
use vmtest.Ui.Target.{target_ui}
use vmtest.Main.Program.{main}
use vmtest.Main.Program.Clean.{IsClean, main-IsClean}
use vmtest.Vmtest.RunOne.Reaped.{Preparation}
use vmtest.Tests.Arguments.{machine}
use vmtest.Tests.Validation.{kernel_target}
use vmtest.Tests.Runs.{render, status_at}
use vmtest.Tests.Sessions.{formats}
use vmtest.Tests.CommandLine.{sys, file_args}
use vmtest.Tests.Screens.{terminal}

-- The time, and whether the child runs.
pub record Box : Type 0 where
  pub time : ℕ
  pub running : Bool

abbrev pub box : Host
box = record {
  State = Box;
  hangs = λ c s. false;
  now = λ s. (s.time, s);
  sleep = λ period s. record s { time = s.time + period };
  spawn = λ program args s. (ok tt, record s { running = true });
  try_wait = λ s. (ok (if s.running then none else some true), s);
  kill = λ s. (ok tt, s);
  wait = λ s. (ok tt, record s { running = false });
  read_stderr = λ s. (([], none), s);
  try_exists = λ path s. (ok true, s);
  remove_file = λ path s. (ok tt, s);
  connect = λ path s. (ok tt, s);
  try_clone = λ s. (ok tt, s);
  handshake = λ s. (ok tt, s);
  quit = λ s. (ok tt, s);
  read_timeout = λ s. (ok none, s);
  set_read_timeout = λ t s. (ok tt, s);
  gen_range = λ low high s. (low, s);
  guest_sync = λ value s. (ok tt, s);
  guest_info = λ s. (ok (text "8.1.0"), s);
  guest_exec = λ args s. (ok (pos 1), s);
  guest_exec_status = λ pid s. (ok (status_at s.time), s);
  spawn_help = λ program s. (spawned, s);
  tempfile_in = λ dir s. (ok (text "/tmp/vmtest-init12345.sh"), s);
  write_all = λ path contents s. (ok tt, s);
  get_mode = λ path s. (ok 0o600, s);
  set_mode = λ path mode s. (ok tt, s);
  env_vars = [];
  env_path = none;
  temp_dir = text "/tmp";
}

abbrev pub idle_box : World Box
idle_box = record {
  host = record { time = 0; running = false };
  sent = [];
  has_stderr = true;
  has_init = false;
}

exited_box :
    (s s' : Box) (success : Bool)
    → ◌≡◌ {A = Result (Option Bool) × Box}
        (ok (if s.running then none else some true), s)
        (ok (some success), s')
    → s'.running ≡ false
exited_box s s' success e = ground arith

spawned_box :
    (s s' : Box) (e : Error)
    → ◌≡◌ {A = Result (Unit {0}) × Box} (ok tt, record s { running = true }) (err e, s')
    → (s'.running && not false) ≡ false
spawned_box s s' e h = absurd (cc h)

waited_box :
    (s s' : Box)
    → ◌≡◌ {A = Result (Unit {0}) × Box} (ok tt, record s { running = false }) (ok tt, s')
    → s'.running ≡ false
waited_box s s' h = rw (sym (ap (λ r. r.1) h)) refl

inspected_box :
    (s s' : Box) (e : Error)
    → ◌≡◌ {A = Result (Option Bool) × Box}
        (ok (if s.running then none else some true), s)
        (err e, s')
    → false ≡ true
inspected_box s s' e h = absurd (cc h)

not_waited_box :
    (s s' : Box) (e : Error)
    → ◌≡◌ {A = Result (Unit {0}) × Box} (ok tt, record s { running = false }) (err e, s')
    → false ≡ true
not_waited_box s s' e h = absurd (cc h)

abbrev child : Child box
child = record {
  runs = λ s. s.running;
  not_spawned = λ program args s s' e h k. spawned_box s s' e h;
  failed = λ s. false;
  not_inspected = inspected_box;
  exited = exited_box;
  waited = λ s s' h. waited_box s s' h;
  not_waited = not_waited_box;
  file_removed = λ path s h. h;
}

preparation : Preparation child
preparation = record {
  gen_range = λ low high s h. h;
  spawn_help = λ program s h. h;
  tempfile_in = λ dir s h. h;
  write_all = λ path contents s h. h;
  get_mode = λ path s h. h;
  set_mode = λ path mode s h. h;
}

-- No line is streamed.
abbrev pub unmixed : ℕ → List Output → List Output
unmixed idx us = us

program_done :
    (main box 3 machine formats render terminal unmixed sys file_args [] idle_box).0 ≡ done 0
unfolding blocking pipe_stderr main text_beq check_target ◌>>=◌ ui_loop updates_of pure run_one
    attempt context ask call on_failure match_option match_result finally send branch trim_end
    trim_start target_ui
program_done = refl

program_ends :
    (main box 3 machine formats render terminal unmixed sys file_args [] idle_box).0 ≢ unfinished
program_ends e = cc (program_done, e)

main-IsClean_example :
    IsClean child (main box 3 machine formats render terminal unmixed sys file_args [] idle_box).1
main-IsClean_example =
    main-IsClean preparation 3 machine formats render terminal unmixed sys file_args [] idle_box
      (record { gone = refl; no_init = refl }) program_ends

-- The target with a mount for reading only.
abbrev target : Target
target = record kernel_target {
  vm = record kernel_target.vm {
    mounts = (text "/mnt/data", record { host_path = text "/srv/data"; writable = false }) ∷ [];
  };
}

abbrev built_socks : Sockets
built_socks = record {
  qga = text "/tmp/qga-100000.sock";
  qmp = text "/tmp/qmp-100000.sock";
  command = text "/tmp/cmdout-100000.sock";
}

abbrev words : List Text
words =
    elim (qemu_args machine built_socks (text "/tmp/vmtest-init12345.sh") (text "/home") target) [
      | none ↦ []
      | some args ↦ args
    ]

abbrev built : Qemu
built = make target (text "/home") built_socks words
