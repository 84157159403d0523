-- ===== src/Ui/Terminal.antt =====
-- What src/ui.rs takes from the `console` and `anyhow` crates, as an interface, and the two
-- helpers that look at whether the UI is enabled. Each write and each clearing may fail, and the
-- code panics where one does: `none`.
pub mod Written
use vmtest.Base.{
  some, ℕ, ◌-◌, List, [], ◌∷◌, ◌++◌, Option, Bool, false, Text, Error, length, take, if◌then◌else◌,
  ◌≡◌,
}
use vmtest.Base.Panics.{◌>>=◌}

-- The style of a line: `Style::new().red().bright()`, or `style(..).dim()` where none is given.
pub data Style : Type 0 where
  red_bright dim : Style

pub record Term : Type 1 where
  -- What the terminal shows.
  pub Screen : Type 0
  -- `Term::write_line` and `Term::clear_last_lines`, `none` where they return an error
  pub write_line : Text → Screen → Option Screen
  pub clear_last_lines : ℕ → Screen → Option Screen
  -- `Term::features().is_attended()`, and whether VMTEST_NO_UI is set
  pub is_attended : Bool
  pub no_ui : Bool
  -- `Term::size_checked`, its width
  pub width : Option ℕ
  pub strip_ansi_codes : Text → Text
  pub truncate_str : Text → ℕ → Text → Text
  pub apply_style : Style → Text → Text
  -- `format!("{:?}", err)`
  pub debug_format : Error → Text

-- A terminal on which no write and no clearing fails, with what is then shown.
pub record Writable (T : Term) : Type 0 where
  pub written : Text → T.Screen → T.Screen
  pub write_line-written :
      (line : Text) (s : T.Screen) → T.write_line line s ≡ some (written line s)
  pub cleared : ℕ → T.Screen → T.Screen
  pub clear_last_lines-cleared :
      (n : ℕ) (s : T.Screen) → T.clear_last_lines n s ≡ some (cleared n s)

-- What the documentation of `console` says of the screen where nothing fails: a written line stands
-- below the others, and clearing takes lines away from the bottom.
pub record IsTerm (T : Term) : Type 0 where
  pub writable : Writable T
  pub rows : T.Screen → List Text
  pub rows-written :
      (line : Text) (s : T.Screen) → rows (writable.written line s) ≡ rows s ++ line ∷ []
  pub rows-cleared :
      (n : ℕ) (s : T.Screen) → rows (writable.cleared n s) ≡ take (length (rows s) - n) (rows s)

module _ (T : Term) where
  unfoldable pub ui_enabled : Bool
  ui_enabled = if T.no_ui then false else T.is_attended

  unfoldable pub clear_lines : ℕ → T.Screen → Option T.Screen
  unfolding ui_enabled
  clear_lines n s = if ui_enabled then T.clear_last_lines n s else some s

  -- The loop that writes lines: the first failure ends it.
  unfoldable pub write_lines : List Text → T.Screen → Option T.Screen
  write_lines [] s = some s
  write_lines (line ∷ rest) s = do s' ← T.write_line line s; write_lines rest s'
