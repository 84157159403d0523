-- ===== src/Ui/Stage/Total.antt =====
-- A stage is shown without a panic where no write fails.
use vmtest.Base.{
  none, false, ◌&&◌, Bool-cases, inl, inr, ◌≤◌, List, [], ◌∷◌, ◌++◌, Option, some, true, Text,
  Error, length, lines, leb, if◌then◌else◌, ◌≡◌, refl, arith, All,
}
use vmtest.Base.Panics.{◌>>=◌}
use vmtest.Base.Strings.Laws.{Lacks, lines-Lacks, length-lines_of_Lacks}
use vmtest.Ui.Terminal.Written.{wrote, without, write_lines-wrote, clear_lines-without}
use vmtest.Ui.Terminal.{Writable, Term, Style, red_bright, ui_enabled}
use vmtest.Ui.Stage.{
  drop_stage, new_stage, Stage, window_size, styled, print_line, print_lines, error_out_stage,
}
use vmtest.Ui.Stage.Window.{window, printed_window}

module _ {T : Term} (W : Writable T) where
  -- What a dropped stage leaves.
  unfoldable pub dropped : Stage → T.Screen → T.Screen
  dropped stage s =
      let left = without W (window_size T stage.lines) s in
      if stage.expand && ui_enabled T then wrote W stage.lines left else left

  pub drop_stage-dropped :
      (stage : Stage) (s : T.Screen) → drop_stage T stage s ≡ some (dropped stage s)
  unfolding drop_stage dropped
  drop_stage-dropped stage s =
      let cleared = clear_lines-without W (window_size T stage.lines) s in
      rw cleared (elim (Bool-cases (stage.expand && ui_enabled T)) [
        | inl e ↦ rw e (write_lines-wrote W stage.lines _)
        | inr e ↦ rw e refl
      ])

  -- A new stage behind the previous one.
  pub new_stage-dropped :
      (title : Text) (previous : Stage) (s : T.Screen)
      → new_stage T title (some previous) s
        ≡ some (record { lines = []; expand = false }, W.written title (dropped previous s))
  unfolding new_stage
  new_stage-dropped title previous s =
      rw (drop_stage-dropped previous s, W.write_line-written title (dropped previous s)) refl

  pub new_stage-first :
      (title : Text) (s : T.Screen)
      → new_stage T title none s ≡ some (record { lines = []; expand = false }, W.written title s)
  unfolding new_stage
  new_stage-first title s = rw (W.write_line-written title s) refl

  -- The window of a stage behind one more line.
  abbrev pub printed : List Text → Text → List Text
  printed ls shown = if ui_enabled T then window (ls ++ shown ∷ []) else shown ∷ []

  pub print_line-printed :
      (stage : Stage) (s : T.Screen) (line : Text) (custom : Option Style)
      → length (lines line) ≤ 1
      → print_line T line custom stage s
        ≡ some (
          record stage { lines = stage.lines ++ styled T line custom ∷ [] },
          wrote W
              (printed stage.lines (styled T line custom))
              (without W (window_size T stage.lines) s),
        )
  unfolding print_line
  print_line-printed stage s line custom h =
      let single : leb (length (lines line)) 1 ≡ true = ground arith in
      let shown = styled T line custom in
      rw
        (
          single,
          clear_lines-without W (window_size T stage.lines) s,
          printed_window T stage.lines shown,
          write_lines-wrote W (printed stage.lines shown) (without W (window_size T stage.lines) s),
        )
        refl

  pub print_line-total :
      (stage : Stage) (s : T.Screen) (line : Text) (custom : Option Style)
      → length (lines line) ≤ 1
      → (next : Stage × T.Screen) × (print_line T line custom stage s ≡ some next)
  print_line-total stage s line custom h = (_, print_line-printed stage s line custom h)

  print_lines-total :
      (stage : Stage) (s : T.Screen) (ls : List Text) (custom : Option Style)
      → All (Lacks 10) ls
      → (next : Stage × T.Screen) × (print_lines T ls custom stage s ≡ some next)
  unfolding print_lines
  print_lines-total stage s [] custom h = ((stage, s), refl)
  print_lines-total stage s (line ∷ ls) custom (h, hs) =
      let (next, done) = print_line-total stage s line custom (length-lines_of_Lacks line h) in
      let (last, rest) = print_lines-total next.0 next.1 ls custom hs in
      (last, rw (done, ◌>>=◌) rest)

  pub error_out_stage-total :
      (stage : Stage) (s : T.Screen) (e : Error)
      → (next : Stage × T.Screen) × (error_out_stage T e stage s ≡ some next)
  unfolding error_out_stage
  error_out_stage-total stage s e =
      let (next, done) =
        print_lines-total stage s (lines (T.debug_format e)) (some red_bright)
          (lines-Lacks (T.debug_format e)) in
      ((record (next.0) { expand = true }, next.1), rw (done, ◌>>=◌))
