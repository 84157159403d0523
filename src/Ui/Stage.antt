-- ===== src/Ui/Stage.antt =====
-- `Stage` of src/ui.rs. `none` is a panic; the functions thread the screen.
pub mod Window
pub mod Total
pub mod Shown
use vmtest.Base.{
  ℕ, zero, suc, ◌-◌, ◌+◌, ◌*◌, ◌^◌, List, [], ◌∷◌, ◌++◌, Option, none, some, Bool, true, false,
  Text, text, Error, length, drop, min, leb, ltb, lines, trim_end, get_or, replicate, if◌then◌else◌,
  ◌&&◌,
}
use vmtest.Ui.Terminal.{Term, Style, red_bright, dim, ui_enabled, clear_lines, write_lines}
use vmtest.Base.Panics.{◌>>=◌}

abbrev pub window_length : ℕ
window_length = 10

pub record Stage : Type 0 where
  pub lines : List Text
  pub expand : Bool

-- `slice.windows(size).last().unwrap()`: `windows` panics at size 0, and a slice that is shorter
-- than the size has no window.
unfoldable pub last_window : ℕ → List Text → Option (List Text)
last_window zero ls = none
last_window (suc n) ls =
    if ltb (length ls) (suc n) then none else some (drop (length ls - suc n) ls)

-- `heading`; the depth is 1 or 2 where it is called.
unfoldable pub heading : Text → ℕ → Text
heading name depth = text "=" ++ (replicate ((depth - 1) * 2) b'=' ++ (text "> " ++ name))

module _ (T : Term) where
  unfoldable pub window_size : List Text → ℕ
  unfolding ui_enabled
  window_size ls = if ui_enabled T then min (length ls) window_length else min (length ls) 1

  -- `Drop::drop`
  unfoldable pub drop_stage : Stage → T.Screen → Option T.Screen
  unfolding window_size clear_lines write_lines ui_enabled
  drop_stage stage s = do
    cleared ← clear_lines T (window_size stage.lines) s
    if stage.expand && ui_enabled T then write_lines T stage.lines cleared else some cleared

  abbrev pub drop_previous : Option Stage → T.Screen → Option T.Screen
  drop_previous none s = some s
  drop_previous (some stage) s = drop_stage stage s

  -- `Stage::new`
  unfoldable pub new_stage : Text → Option Stage → T.Screen → Option (Stage × T.Screen)
  new_stage title previous s = do
    dropped ← drop_previous previous s
    s' ← T.write_line title dropped
    some (record { lines = []; expand = false }, s')

  -- The line as it is shown: clipped and styled if the UI is enabled, as it is if not.
  unfoldable pub styled : Text → Option Style → Text
  unfolding trim_end ui_enabled
  styled line custom =
      let trimmed = trim_end line in
      if ui_enabled T
      then T.apply_style (get_or custom dim)
          (T.truncate_str (T.strip_ansi_codes trimmed) (get_or T.width (2 ^ 16 - 1)) (text "..."))
      else trimmed

  unfoldable pub print_line : Text → Option Style → Stage → T.Screen → Option (Stage × T.Screen)
  unfolding window_size clear_lines write_lines styled last_window lines
  print_line line custom stage s =
      let ls = stage.lines ++ styled line custom ∷ [] in
      if leb (length (lines line)) 1
      then (do
        cleared ← clear_lines T (window_size stage.lines) s
        window ← last_window (window_size ls) ls
        s' ← write_lines T window cleared
        some (record stage { lines = ls }, s'))
      else none

  -- The loop of `error_out_stage` over the lines of the error.
  unfoldable pub print_lines :
      List Text → Option Style → Stage → T.Screen → Option (Stage × T.Screen)
  unfolding print_line
  print_lines [] custom stage s = some (stage, s)
  print_lines (line ∷ rest) custom stage s = do
    (stage', s') ← print_line line custom stage s
    print_lines rest custom stage' s'

  unfoldable pub error_out_stage : Error → Stage → T.Screen → Option (Stage × T.Screen)
  unfolding print_lines lines
  error_out_stage e stage s = do
    (stage', s') ← print_lines (lines (T.debug_format e)) (some red_bright) stage s
    some (record stage' { expand = true }, s')
