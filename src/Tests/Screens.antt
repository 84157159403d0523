-- ===== src/Tests/Screens.antt =====
-- src/ui.rs on a terminal that keeps its rows.
use vmtest.Base.{
  ◌-◌, ◌≤◌, List, [], ◌∷◌, ◌++◌, none, some, true, false, Text, text, text_eq, ok, err, length,
  lines, take, join, ◌≡◌, refl, All, arith, if◌then◌else◌,
}
use vmtest.Base.Integers.{ℤ, pos}
use vmtest.Output.{
  Output, boot_start, boot, boot_end, setup_start, setup_end, command_start, command, command_end,
}
use vmtest.Ui.Terminal.{Term, Writable, IsTerm, ui_enabled}
use vmtest.Ui.Stage.{Stage, heading, drop_stage, print_line}
use vmtest.Ui.Stage.Window.{Shows}
use vmtest.Ui.Stage.Shown.{Printed, print_line-Shows, rows-drop_stage}
use vmtest.Ui.Target.{target_ui}
use vmtest.Ui.Target.Verdict.{verdict, SingleLine, target_ui-verdict}
use vmtest.Ui.Target.Clean.{IsClean, target_ui_clean}

abbrev pub terminal : Term
terminal = record {
  Screen = List Text;
  write_line = λ line s. some (s ++ line ∷ []);
  clear_last_lines = λ n s. some (take (length s - n) s);
  is_attended = true;
  no_ui = false;
  width = some 80;
  strip_ansi_codes = λ s. s;
  truncate_str = λ s width tail. take width s;
  apply_style = λ style s. s;
  debug_format = join (text "\n");
}

abbrev pub writable : Writable terminal
writable = record {
  written = λ line s. s ++ line ∷ [];
  write_line-written = λ line s. refl;
  cleared = λ n s. take (length s - n) s;
  clear_last_lines-cleared = λ n s. refl;
}

terminal_laws : IsTerm terminal
terminal_laws = record {
  writable = writable;
  rows = λ s. s;
  rows-written = λ line s. refl;
  rows-cleared = λ n s. refl;
}

abbrev above : List Text
above = text "=> kernel" ∷ text "===> Booting" ∷ []

abbrev stage : Stage
stage = record { lines = text "a" ∷ text "b" ∷ []; expand = false }

abbrev screen : List Text
screen = above ++ stage.lines

stage_shown : Shows terminal terminal_laws above stage screen
unfolding terminal_laws ui_enabled
stage_shown = refl

one_line : (line : Text) → lines line ≡ line ∷ [] → length (lines line) ≤ 1
one_line line e = rw e (omega arith)

print_line-Shows_example :
    (next : Stage × List Text) × (print_line terminal (text "c") none stage screen ≡ some next)
    × Printed terminal terminal_laws above stage (text "c") none next
print_line-Shows_example =
    print_line-Shows terminal terminal_laws above stage screen (text "c") none
      (one_line (text "c") (unfold lines in refl)) stage_shown

rows-drop_stage_example :
    (s' : List Text) × (drop_stage terminal stage screen ≡ some s')
    × (terminal_laws.rows s'
        ≡ above
          ++ (if ui_enabled terminal
              then (if stage.expand then stage.lines else [])
              else stage.lines))
rows-drop_stage_example = rows-drop_stage terminal terminal_laws above stage screen stage_shown

-- The updates of a target whose command exits with the given code.
abbrev updates : ℤ → List Output
updates rc =
    boot_start
    ∷ boot (text "Linux")
    ∷ boot_end (ok tt)
    ∷ setup_start
    ∷ setup_end (ok tt)
    ∷ command_start
    ∷ command (text "hello")
    ∷ command_end (ok rc)
    ∷ []

-- The updates of a target that does not boot.
abbrev failing : List Output
failing = boot_start ∷ boot (text "panic") ∷ boot_end (err (text "no guest" ∷ [])) ∷ []

updates_single : (rc : ℤ) → All SingleLine (updates rc)
updates_single rc = (
  tt,
  (
    one_line (text "Linux") (unfold lines in refl),
    (tt, (tt, (tt, (tt, (one_line (text "hello") (unfold lines in refl), (tt, tt)))))),
  ),
)

failing_single : All SingleLine failing
failing_single = (tt, (one_line (text "panic") (unfold lines in refl), (tt, tt)))

updates-IsClean : All IsClean (updates (pos 0))
updates-IsClean = (
  tt,
  (
    one_line (text "Linux") (unfold lines in refl),
    (tt, (tt, (tt, (tt, (one_line (text "hello") (unfold lines in refl), (refl, tt)))))),
  ),
)

target_ui-verdict_example :
    (s' : List Text) × (target_ui terminal (text "kernel") true failing []
      ≡ some (verdict failing, s'))
target_ui-verdict_example =
    target_ui-verdict terminal writable (text "kernel") true failing [] failing_single

not_run : verdict failing ≡ none
not_run = refl

terminal_enabled : ui_enabled terminal ≡ true
unfolding ui_enabled
terminal_enabled = refl

target_ui_clean_example :
    (s' : List Text) × (target_ui terminal (text "kernel") false (updates (pos 0)) []
      ≡ some (some (pos 0), s'))
    × (terminal_laws.rows s'
        ≡ terminal_laws.rows [] ++ heading (text "kernel") 1 ∷ text "PASS" ∷ [])
target_ui_clean_example =
    target_ui_clean terminal terminal_laws terminal_enabled (text "kernel") (updates (pos 0)) []
      updates-IsClean
