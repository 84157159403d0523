-- ===== src/Host.antt =====
-- The world outside of vmtest, as an interface: time, files, sockets, the QEMU process, and the
-- two protocols that the `qapi` crate speaks. Times are in milliseconds. And the actions of
-- src/qemu.rs and src/qga.rs over it, which may fail, panic, or not return within their fuel.
pub mod Sends
pub mod Moves
pub mod Returns
pub mod Inversion
pub mod Keeps
pub mod Leaves
use vmtest.Base.{
  ℕ, List, [], ◌∷◌, ◌++◌, Option, none, some, Bool, true, false, Text, Error, Result, ok, err, ◌≡◌,
  refl, ap,
}
use vmtest.Base.Integers.{ℤ}
use vmtest.Output.{Output}

-- `GuestExecCaptureOutput`
pub data CaptureOutput : Type 0 where
  merged : CaptureOutput
  flag : Bool → CaptureOutput

-- `qga::guest_exec`; no input is ever given.
pub record GuestExec : Type 0 where
  pub path : Text
  pub arg : List Text
  pub capture_output : CaptureOutput
  pub env : Option (List Text)

-- `qga::GuestExecStatus`, with the captured bytes already read as UTF-8, lossily.
pub record ExecStatus : Type 0 where
  pub exited : Bool
  pub exitcode : Option ℤ
  pub out_data : Option Text
  pub err_data : Option Text
  pub out_truncated : Option Bool
  pub err_truncated : Option Bool

-- How the spawning of a program ends.
pub data Spawned : Type 0 where
  spawned : Spawned
  -- `ErrorKind::NotFound`, and any other error
  not_found spawn_failed : Text → Spawned

-- The calls that wait for another process: for QEMU to exit or to close its stderr, for an answer
-- of QMP, and for one of the agent.
pub data Waiting : Type 0 where
  on_exit on_stderr on_handshake on_quit on_sync on_info on_exec on_status : Waiting

pub record Host : Type 1 where
  pub State : Type 0
  -- such a call never returns
  pub hangs : Waiting → State → Bool
  -- `Instant::now`, `thread::sleep`
  pub now : State → ℕ × State
  pub sleep : ℕ → State → State
  -- the QEMU process: `spawn` of a program with its arguments, `try_wait` with the success of the
  -- exit status, `kill`, `wait`, and the rest of its stderr with the error that ended the reading, if one did
  pub spawn : Text → List Text → State → Result (Unit {0}) × State
  pub try_wait : State → Result (Option Bool) × State
  pub kill : State → Result (Unit {0}) × State
  pub wait : State → Result (Unit {0}) × State
  pub read_stderr : State → (Text × Option Text) × State
  -- `Path::try_exists`, `fs::remove_file`, `UnixStream::connect`, `try_clone`
  pub try_exists : Text → State → Result Bool × State
  pub remove_file : Text → State → Result (Unit {0}) × State
  pub connect : Text → State → Result (Unit {0}) × State
  pub try_clone : State → Result (Unit {0}) × State
  -- QMP: the handshake and `quit`
  pub handshake : State → Result (Unit {0}) × State
  pub quit : State → Result (Unit {0}) × State
  -- QGA: the read timeout of its stream, and its commands; `guest_info` gives the version
  pub read_timeout : State → Result (Option ℕ) × State
  pub set_read_timeout : Option ℕ → State → Result (Unit {0}) × State
  pub gen_range : ℕ → ℕ → State → ℕ × State
  pub guest_sync : ℕ → State → Result (Unit {0}) × State
  pub guest_info : State → Result Text × State
  pub guest_exec : GuestExec → State → Result ℤ × State
  pub guest_exec_status : ℤ → State → Result ExecStatus × State
  -- `spawn` of a program for its `--help`
  pub spawn_help : Text → State → Spawned × State
  -- the temporary file of the init script: its creation in a directory, which gives its path,
  -- and what is done to it
  pub tempfile_in : Text → State → Result Text × State
  pub write_all : Text → Text → State → Result (Unit {0}) × State
  pub get_mode : Text → State → Result ℕ × State
  pub set_mode : Text → ℕ → State → Result (Unit {0}) × State
  -- `env::vars`, `env::var("PATH")` where it is set and Unicode, and `env::temp_dir`
  pub env_vars : List (Text × Text)
  pub env_path : Option Text
  pub temp_dir : Text

pub data Outcome (A : Type 0) : Type 0 where
  done : A → Outcome A
  fail : Error → Outcome A
  -- the thread panics
  panic : Outcome A
  -- the call has not returned: the fuel ran out, or a call of the host does not return
  unfinished : Outcome A

abbrev pub of_result : {A : Type 0} → Result A → Outcome A
of_result (ok a) = done a
of_result (err e) = fail e

abbrev pub caught : {A : Type 0} → Outcome A → Outcome (Result A)
caught (done a) = done (ok a)
caught (fail e) = done (err e)
caught panic = panic
caught unfinished = unfinished

abbrev pub with_context : {A : Type 0} → Text → Outcome A → Outcome A
with_context c (fail e) = fail (c ∷ e)
with_context c r = r

-- Where the cleanup does not return, neither does the whole.
abbrev pub closed : {A : Type 0} → Outcome A → Outcome (Unit {0}) → Outcome A
closed r unfinished = unfinished
closed r (done u) = r
closed r (fail e) = r
closed r panic = r

-- No cleanup is needed behind a success.
abbrev pub closed_failure : {A : Type 0} → Outcome A → Outcome (Unit {0}) → Outcome A
closed_failure (done a) c = done a
closed_failure r c = closed r c

module _ (S : Type 0) where
  -- The host, the updates sent so far, and what `Qemu` and its child still own: the pipe of the
  -- child's stderr and the temporary init script.
  pub record World : Type 0 where
    pub host : S
    pub sent : List Output
    pub has_stderr : Bool
    pub has_init : Bool

  abbrev pub Act : Type 0 → Type 0
  Act A = World → Outcome A × World

module _ {S : Type 0} where
  abbrev pub continue : {A B : Type 0} → Outcome A → (A → Act S B) → Act S B
  continue (done a) f w = f a w
  continue (fail e) f w = (fail e, w)
  continue panic f w = (panic, w)
  continue unfinished f w = (unfinished, w)

  infixl 5 ◌>>=◌ ◌>>◌
  unfoldable pub ◌>>=◌ : {A B : Type 0} → Act S A → (A → Act S B) → Act S B
  ◌>>=◌ m f w = let (r, w') = m w in continue r f w'

  abbrev pub ◌>>◌ : {A : Type 0} → Act S (Unit {0}) → Act S A → Act S A
  m >> k = m >>= λ _. k

  unfoldable pub pure : {A : Type 0} → A → Act S A
  pure a w = (done a, w)

  unfoldable pub throw : {A : Type 0} → Error → Act S A
  throw e w = (fail e, w)

  unfoldable pub panics : {A : Type 0} → Act S A
  panics w = (panic, w)

  unfoldable pub out_of_fuel : {A : Type 0} → Act S A
  out_of_fuel w = (unfinished, w)

  -- `updates.send(msg)`, whose error is ignored everywhere.
  unfoldable pub send : Output → Act S (Unit {0})
  send msg w = (done tt, record w { sent = w.sent ++ msg ∷ [] })

  -- A fallible call of the host, and one that cannot fail.
  unfoldable pub call : {A : Type 0} → (S → Result A × S) → Act S A
  call op w = let (r, s) = op w.host in (of_result r, record w { host = s })

  unfoldable pub ask : {A : Type 0} → (S → A × S) → Act S A
  ask op w = let (a, s) = op w.host in (done a, record w { host = s })

  abbrev pub held : {A : Type 0} → Bool → Act S A → Act S A
  held true m w = (unfinished, w)
  held false m w = m w

  -- A call that may never return, if it does.
  unfoldable pub blocking : {A : Type 0} → (S → Bool) → Act S A → Act S A
  blocking hangs m w = held (hangs w.host) m w

  -- `.stderr(Stdio::piped())` of a command: the child that it spawns has a pipe of its own.
  unfoldable pub pipe_stderr : Act S (Unit {0})
  pipe_stderr w = (done tt, record w { has_stderr = true })

  -- The result as a value, for a `match` on it.
  unfoldable pub attempt : {A : Type 0} → Act S A → Act S (Result A)
  attempt m w = let (r, w') = m w in (caught r, w')

  -- `m.context(c)`
  unfoldable pub context : {A : Type 0} → Text → Act S A → Act S A
  context c m w = let (r, w') = m w in (with_context c r, w')

  abbrev pub after : {A : Type 0} → Outcome A → Act S (Unit {0}) → World S → World S
  after unfinished cleanup w = w
  after r cleanup w = (cleanup w).1

  -- `defer!` and guards: the cleanup runs however `m` ends, by unwinding too.
  unfoldable pub finally : {A : Type 0} → Act S A → Act S (Unit {0}) → Act S A
  finally m cleanup w = let (r, w') = m w in (closed r (cleanup w').0, after r cleanup w')

  abbrev pub after_failure : {A : Type 0} → Outcome A → Act S (Unit {0}) → World S → World S
  after_failure (done a) cleanup w = w
  after_failure r cleanup w = after r cleanup w

  -- A guard that is handed on if `m` succeeds.
  unfoldable pub on_failure : {A : Type 0} → Act S A → Act S (Unit {0}) → Act S A
  on_failure m cleanup w =
      let (r, w') = m w in (closed_failure r (cleanup w').0, after_failure r cleanup w')

  -- `let _ = m;` and `if let Err(e) = m { log }`
  abbrev pub ignore_error : {A : Type 0} → Act S A → Act S (Unit {0})
  ignore_error m = attempt m >>= λ _. pure tt

  -- `match r { Ok(a) => .., Err(e) => .. }`
  unfoldable pub match_result :
      {A B : Type 0} → Result A → (A → Act S B) → (Error → Act S B) → Act S B
  match_result (ok a) f g = f a
  match_result (err e) f g = g e

  -- `match o { None => .., Some(a) => .. }`
  unfoldable pub match_option : {A B : Type 0} → Option A → Act S B → (A → Act S B) → Act S B
  match_option none n f = n
  match_option (some a) n f = f a

  -- `if b { .. } else { .. }`
  unfoldable pub branch : {A : Type 0} → Bool → Act S A → Act S A → Act S A
  branch true m n = m
  branch false m n = n

  -- A call that succeeds, or fails, steps to what follows.
  pub call-ok :
      {A B : Type 0} (op : S → Result A × S) (k : A → Act S B) (w : World S) (a : A) (s : S)
      → op w.host ≡ (ok a, s)
      → (call op >>= k) w ≡ k a (record w { host = s })
  unfolding call ◌>>=◌
  call-ok op k w a s e = ap (λ p. continue (of_result p.0) k (record w { host = p.1 })) e

  -- A dropped error leaves what the call made of the host.
  pub ignore_error-host :
      (op : S → Result (Unit {0}) × S) (w : World S)
      → (ignore_error (call op) w).1.host ≡ (op w.host).1
  unfolding attempt call ◌>>=◌ pure
  ignore_error-host op w = same (op w.host).0
    where
      same :
          (r : Result (Unit {0}))
          → (continue
              (caught (of_result r))
              (λ _ w'. (done tt, w'))
              (record w { host = (op w.host).1 })).1.host
            ≡ (op w.host).1
      same (ok a) = refl
      same (err e) = refl
