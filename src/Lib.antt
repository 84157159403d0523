-- ===== src/Lib.antt =====
-- vmtest runs a command in a virtual machine. It reads a configuration, starts QEMU for each
-- target, connects to the guest's agent, sets the guest up, runs the command in it, and shows what
-- happens on the terminal while it happens. The program is written in Rust.
--
-- Parts and files, by the source that they model:
-- - Config: the records of src/config.rs and their defaults. Config/Load: what serde makes of the
--   tables of a file, by the attributes.
-- - Main: config, show_cmd, init_logging and the arguments of src/main.rs. Main/Program: main.
--   Main/Log: DeferredLog.
-- - Vmtest/Validate: validate_config of src/vmtest.rs. Vmtest/Resolve: resolve_path and the
--   assignments of setup_qemu. Vmtest/Instance: Vmtest::new, and setup_qemu up to the call of
--   Qemu::new. Vmtest/RunOne: setup_qemu and run_one. Paths is the part of std::path that is used.
-- - Output: the enum of src/output.rs. Output/Order: the state machine of its documentation.
-- - Host: the interface to everything outside: clock, files, sockets, the QEMU process, and the
--   QMP and guest agent protocols of the qapi crate; and the actions over it, with `?`, context,
--   scope guards and panics. Host/Sends and Host/Moves: rules on the updates that an action sends.
--   Host/Returns: rules on when it returns. Host/Keeps and Host/Leaves: rules on what it keeps of
--   the host, and of the world. Host/Inversion: what an action that succeeds went through.
-- - Qga/Version and Qga/Connect: Version and QgaWrapper of src/qga.rs.
-- - Qemu/Args and below, Qemu/Invocation: the functions of src/qemu.rs that build QEMU's
--   arguments, and the command line of Qemu::new. Qemu/Instance: struct Qemu. Qemu/Init:
--   guest_init_path. Qemu/New: Qemu::new, gen_init and gen_sock.
-- - Qemu/Boot: boot_vm and what it calls. Guest: run_in_vm. Guest/Mount: mount_in_guest, setup_vm
--   and sync. Guest/Command: run_command. Guest/Streams: the two threads that stream output.
-- - Qemu/Run: Qemu::run and the destructors.
-- - Ui/Terminal, Ui/Stage, Ui/Target, Ui/Run: src/ui.rs over an interface to the terminal.
--   Ui/Program: Ui::run over run_one, with a channel for each target. Output/Interleave: how the
--   updates of several threads arrive.
-- - Ui/Terminal/Written: the terminal where no write fails. Ui/Stage/Shown: what the screen shows then.
-- - Modules below these prove what holds of them: Vmtest/Validate/Laws, Qemu/Run/Protocol, the
--   modules called Returns, Reaped and Truthful, Vmtest/RunOne/Cleanup, Vmtest/Session,
--   Ui/Program/Due, Main/Program/Exit, Main/Program/Clean, Qemu/New/Exports, Qemu/Boot/Termination,
--   Qemu/Boot/Appears, Guest/Outcome, Guest/Mount/Setup, Ui/Stage/Window, Ui/Stage/Total, Ui/Target/Verdict and
--   the like.
-- - Base: tests, lists, texts, results and machine integers. Tests: runs and examples.
--
-- How they interact: Qemu::run sends Output values on a channel that target_ui reads until the
-- sender hangs up. The model of a run gives the list of its updates, and target_ui takes a list.
-- The two streaming threads send on the same channel: Vmtest/Session and Ui/Program let their
-- lines arrive anywhere among the updates of the run. target_ui reads a channel to its end before
-- the next target is run, so that Ui/Program shows the updates of a target when its run has ended.
--
-- Texts are lists of Unicode scalar values; paths are taken to be UTF-8. A HashMap is the list of
-- its entries in iteration order. `none` is a panic in the pure parts, and `panic` an outcome of
-- an action. Times are in milliseconds. A loop without a bound of its own takes fuel and has the
-- outcome `unfinished` when it runs out: poll, the waiting loops of the boot, and the connection
-- to the agent. Fuel above the number of answers is enough for poll, above 100 for the waits of 5
-- s in rounds of 50 ms, and above 120 for the connection of at most 120 s in rounds of a second.
-- Where each process in the guest ends within a span of time, a round of poll for each 0.2 s of it
-- is enough.
--
-- A call that waits for another process may never return: for QEMU to exit or to close its stderr,
-- for an answer of QMP, and for one of the agent in the guest. Where it hangs, by `hangs` of the
-- host, the outcome is `unfinished` as well. Host/Returns and Guest/Returns name the ones that are
-- taken to return where a theorem is about returning; a read from the agent's stream is taken to
-- return where a timeout was set. Behind a child that cannot be inspected or waited for, QEMU may
-- still run. A write to the terminal may fail, which is a panic of the user interface, as in the
-- code; theorems on what is shown ask for a terminal on which none fails.
--
-- Parameters: the logger, the reading of TOML text, regular expressions, the rendering of
-- templates, how `{:?}` shows a path, the hash of a path, and what the system's calls return.
--
-- Not modelled: the parsing of the command line by clap (its default values are), the
-- initialisation of env_logger (its result is a parameter) and log output, the shell scripts that
-- run in the guest, and integration tests. A streaming thread that still sends when the run has
-- ended is covered, since its lines may arrive anywhere; that it ends is not stated.
pub mod Base
pub mod Paths
pub mod Config
pub mod Output
pub mod Host
pub mod Ui
pub mod Qga
pub mod Guest
pub mod Qemu
pub mod Vmtest
pub mod Tests
pub mod Main
