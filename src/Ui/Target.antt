-- ===== src/Ui/Target.antt =====
-- `target_ui` of src/ui.rs: the loop over the updates of one target. The receiver gives the
-- updates in the order in which they were sent, and then the hang-up.
pub mod Verdict
pub mod Clean
pub mod Outcome
pub mod Code
use vmtest.Base.{
  ℕ, suc, ◌+◌, List, [], ◌∷◌, ◌++◌, Option, none, some, Bool, true, false, not, Text, text, Error,
  ok, err, show, if◌then◌else◌, Eq, ◌==◌,
}
use vmtest.Base.Integers.{ℤ, pos, negsuc, ℤ_eq, as_i32}
use vmtest.Base.Panics.{◌>>=◌}
use vmtest.Output.{
  Output, boot_start, boot, boot_end, setup_start, setup, setup_end, command_start, command,
  command_end,
}
use vmtest.Ui.Terminal.{Term, clear_lines}
use vmtest.Ui.Stage.{Stage, heading, new_stage, drop_stage, print_line, error_out_stage}

-- `to_string` of an `i64`
unfoldable pub show_int : ℤ → Text
unfolding show
show_int (pos n) = show n
show_int (negsuc n) = text "-" ++ show (n + 1)

-- `anyhow!("Command failed with exit code: {}", retval)`
unfoldable pub exit_code_error : ℤ → Error
unfolding show_int
exit_code_error retval = (text "Command failed with exit code: " ++ show_int retval) ∷ []

-- The variables of the loop, and the screen.
pub record Progress (T : Term) : Type 0 where
  pub stage : Stage
  pub stages : ℕ
  pub rc : Option ℤ
  pub screen : T.Screen

module _ (T : Term) where
  -- `stage = Stage::new(.., Some(stage)); stages += 1;`
  unfoldable pub start_stage : Text → Progress T → Option (Progress T)
  unfolding new_stage heading
  start_stage name p = do
    (stage', s') ← new_stage T (heading name 2) (some p.stage) p.screen
    some (record p { stage = stage'; stages = p.stages + 1; screen = s' })

  unfoldable pub show_line : Text → Progress T → Option (Progress T)
  unfolding print_line
  show_line line p = do
    (stage', s') ← print_line T line none p.stage p.screen
    some (record p { stage = stage'; screen = s' })

  unfoldable pub show_error : Error → Progress T → Option (Progress T)
  unfolding error_out_stage
  show_error e p = do
    (stage', s') ← error_out_stage T e p.stage p.screen
    some (record p { stage = stage'; screen = s' })

  -- `error_out_stage(&mut stage, e); rc = None;`
  unfoldable pub fail_with : Error → Progress T → Option (Progress T)
  unfolding show_error
  fail_with e p = do p' ← show_error e p; some (record p' { rc = none })

  -- `if show_cmd { stage.expand(true); }`
  unfoldable pub expand_if : Bool → Progress T → Progress T
  expand_if show_cmd p =
      if show_cmd then record p { stage = record (p.stage) { expand = true } } else p

  -- The body of the loop.
  unfoldable pub step : Bool → Output → Progress T → Option (Progress T)
  unfolding start_stage show_line show_error fail_with expand_if exit_code_error as_i32
  step show_cmd boot_start p = start_stage (text "Booting") p
  step show_cmd (boot s) p = show_line s p
  step show_cmd (boot_end (ok _)) p = some p
  step show_cmd (boot_end (err e)) p = fail_with e p
  step show_cmd setup_start p = start_stage (text "Setting up VM") p
  step show_cmd (setup s) p = show_line s p
  step show_cmd (setup_end (ok _)) p = some p
  step show_cmd (setup_end (err e)) p = fail_with e p
  step show_cmd command_start p = start_stage (text "Running command") p
  step show_cmd (command s) p = show_line s p
  step show_cmd (command_end (ok retval)) p = do
    let q = expand_if show_cmd p
    p' ← (if retval == pos 0 then some q else show_error (exit_code_error retval) q)
    some (record p' { rc = some (as_i32 retval) })
  step show_cmd (command_end (err e)) p = fail_with e (expand_if show_cmd p)

  unfoldable pub loop : Bool → List Output → Progress T → Option (Progress T)
  unfolding step
  loop show_cmd [] p = some p
  loop show_cmd (msg ∷ msgs) p = do p' ← step show_cmd msg p; loop show_cmd msgs p'

  -- The `match` on the return code, behind `drop(stage)`.
  unfoldable pub report : Bool → ℕ → Option ℤ → T.Screen → Option T.Screen
  unfolding clear_lines
  report true stages rc s = some s
  report false stages none s = some s
  report false stages (some rc) s =
      if rc == pos 0
      then (do s' ← clear_lines T stages s; T.write_line (text "PASS") s')
      else T.write_line (text "FAILED") s

  -- The variables before the loop.
  unfoldable pub start : Text → T.Screen → Option (Progress T)
  unfolding new_stage heading
  start target s = do
    (stage, s') ← new_stage T (heading target 1) none s
    some (record { stage = stage; stages = 0; rc = some (pos 0); screen = s' })

  unfoldable pub target_ui : Text → Bool → List Output → T.Screen → Option (Option ℤ × T.Screen)
  unfolding start loop report drop_stage
  target_ui target show_cmd updates s = do
    started ← start target s
    p ← loop show_cmd updates started
    dropped ← drop_stage T p.stage p.screen
    s' ← report show_cmd p.stages p.rc dropped
    some (p.rc, s')
