-- ===== src/Ui/Stage/Shown.antt =====
-- What the screen shows of a stage where no write fails.
use vmtest.Base.{
  ◌≤◌, List, [], ◌∷◌, ◌++◌, append_assoc, append-nil, Option, some, Text, length, lines,
  if◌then◌else◌, ◌≡◌, refl, ◌∙◌, sym, ap, All, map, Bool-cases, inl, inr,
}
use vmtest.Base.Panics.{◌>>=◌}
use vmtest.Base.Strings.Laws.{Lacks, length-lines_of_Lacks}
use vmtest.Ui.Terminal.{Term, IsTerm, Style, ui_enabled}
use vmtest.Ui.Stage.{Stage, window_size, drop_stage, styled, print_line, print_lines}
use vmtest.Ui.Terminal.Written.{without}
use vmtest.Ui.Stage.Window.{window, shown_lines, Shows, rows-wrote, rows-without}
use vmtest.Ui.Stage.Total.{dropped, printed, print_line-printed, drop_stage-dropped}

module _ (T : Term) (L : IsTerm T) where
  -- What `print_line` makes of a stage.
  pub record Printed (base : List Text) (stage : Stage) (line : Text) (custom : Option Style)
      (next : Stage × T.Screen) : Type 0 where
    pub cached : next.0.lines ≡ stage.lines ++ styled T line custom ∷ []
    pub same_expand : next.0.expand ≡ stage.expand
    pub shows : Shows T L base next.0 next.1

  shown_after :
      (base ls : List Text) (line : Text)
      → (base ++ (if ui_enabled T then [] else ls))
          ++ (if ui_enabled T then window (ls ++ line ∷ []) else line ∷ [])
        ≡ base ++ shown_lines T L (ls ++ line ∷ [])
  shown_after base ls line = elim (Bool-cases (ui_enabled T)) [
    | inl e ↦ rw (e, append-nil)
    | inr e ↦ rw (e, append_assoc)
  ]

  -- If the screen shows the stage and no write to the terminal fails, printing a text of at most
  -- one line does not panic: the line is cached behind the others, and the screen shows, below what
  -- stood above the stage, its last ten lines, or all of them if the UI is disabled.
  pub print_line-Shows :
      (base : List Text) (stage : Stage) (s : T.Screen) (line : Text) (custom : Option Style)
      → length (lines line) ≤ 1
      → Shows T L base stage s
      → (next : Stage × T.Screen) × (print_line T line custom stage s ≡ some next)
        × Printed base stage line custom next
  print_line-Shows base stage s line custom h shows =
      let shown = styled T line custom in
      let left = without L.writable (window_size T stage.lines) s in
      (
        _,
        print_line-printed L.writable stage s line custom h,
        record {
          cached = refl;
          same_expand = refl;
          shows =
              rows-wrote T L (printed L.writable stage.lines shown) left
              ∙ ap (λ rows. rows ++ printed L.writable stage.lines shown)
                  (rows-without T L base stage s shows)
              ∙ shown_after base stage.lines shown;
        },
      )

  pub rows-dropped :
      (base : List Text) (stage : Stage) (s : T.Screen)
      → Shows T L base stage s
      → L.rows (dropped L.writable stage s)
        ≡ base ++ (if ui_enabled T then (if stage.expand then stage.lines else []) else stage.lines)
  unfolding dropped
  rows-dropped base stage s shows = elim (Bool-cases (ui_enabled T)) [
    | inl e ↦ elim (Bool-cases stage.expand) [
      | inl x ↦
          rw (x, e)
            (rows-wrote T L stage.lines _
              ∙ ap (λ rows. rows ++ stage.lines) (rw e at (rows-without T L base stage s shows))
              ∙ rw append-nil)
      | inr x ↦ rw (x, e) (rw e at (rows-without T L base stage s shows))
    ]
    | inr e ↦ elim (Bool-cases stage.expand) [
      | inl x ↦ rw (x, e) (rw e at (rows-without T L base stage s shows))
      | inr x ↦ rw (x, e) (rw e at (rows-without T L base stage s shows))
    ]
  ]

  -- If the screen shows the stage and no write to the terminal fails, dropping it does not panic,
  -- clears its window, and shows all of its lines where it is expanded; with the UI disabled its
  -- lines stay.
  pub rows-drop_stage :
      (base : List Text) (stage : Stage) (s : T.Screen)
      → Shows T L base stage s
      → (s' : T.Screen) × (drop_stage T stage s ≡ some s')
        × (L.rows s'
            ≡ base
              ++ (if ui_enabled T then (if stage.expand then stage.lines else []) else stage.lines))
  rows-drop_stage base stage s shows =
      (_, drop_stage-dropped L.writable stage s, rows-dropped base stage s shows)

  pub print_lines-Shows :
      (base : List Text) (stage : Stage) (s : T.Screen) (ls : List Text) (custom : Option Style)
      → All (Lacks 10) ls
      → Shows T L base stage s
      → (next : Stage × T.Screen) × (print_lines T ls custom stage s ≡ some next)
        × (next.0.lines ≡ stage.lines ++ map (λ line. styled T line custom) ls)
        × Shows T L base next.0 next.1
  unfolding print_lines
  print_lines-Shows base stage s [] custom h shows = ((stage, s), refl, sym (append-nil _), shows)
  print_lines-Shows base stage s (line ∷ ls) custom (h, hs) shows =
      let (next, done, p) =
        print_line-Shows base stage s line custom (length-lines_of_Lacks line h) shows in
      let (last, rest, cached, q) = print_lines-Shows base next.0 next.1 ls custom hs p.shows in
      (
        last,
        rw (done, ◌>>=◌) rest,
        cached ∙ ap (λ xs. xs ++ map (λ line. styled T line custom) ls) p.cached ∙ rw append_assoc,
        q,
      )
