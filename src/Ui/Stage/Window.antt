-- ===== src/Ui/Stage/Window.antt =====
-- What a stage shows: under its heading the last ten lines, or all of them if the UI is disabled.
use vmtest.Base.{
  ℕ, zero, suc, ◌-◌, ◌≤◌, ◌<◌, List, [], ◌∷◌, ◌++◌, append_assoc, append-nil, some, Text, length,
  length-append, length-drop, take, take-append, drop, min, if◌then◌else◌, ◌≡◌, refl, ◌∙◌, sym, ap,
  arith, Bool-cases, inl, inr,
}
use vmtest.Ui.Terminal.Written.{wrote, without}
use vmtest.Ui.Terminal.{Term, IsTerm, ui_enabled}
use vmtest.Ui.Stage.{Stage, window_length, last_window, window_size}

-- The last ten lines.
abbrev pub window : List Text → List Text
window ls = drop (length ls - window_length) ls

module _ (T : Term) (L : IsTerm T) where
  pub rows-wrote : (ls : List Text) (s : T.Screen) → L.rows (wrote L.writable ls s) ≡ L.rows s ++ ls
  rows-wrote [] s = rw append-nil
  rows-wrote (line ∷ rest) s =
      rw (rows-wrote rest (L.writable.written line s), L.rows-written line s, append_assoc)

  abbrev pub shown_lines : List Text → List Text
  shown_lines ls = if ui_enabled T then window ls else ls

  -- The screen shows `base`, with the heading of the stage at its end, and the lines of the stage.
  abbrev pub Shows : List Text → Stage → T.Screen → Type 0
  Shows base stage s = L.rows s ≡ base ++ shown_lines stage.lines

  take_exact : (n : ℕ) (xs ys : List Text) → n ≡ length xs → take n (xs ++ ys) ≡ xs
  take_exact n xs ys e = rw e (take-append xs ys)

  -- Clearing the window leaves what stood above it; with the UI disabled nothing is cleared.
  pub rows-without :
      (base : List Text) (stage : Stage) (s : T.Screen)
      → Shows base stage s
      → L.rows (without L.writable (window_size T stage.lines) s)
        ≡ base ++ (if ui_enabled T then [] else stage.lines)
  unfolding window_size
  rows-without base stage s h = elim (Bool-cases (ui_enabled T)) [
    | inl e ↦ rw e (
        rw (L.rows-cleared, rw e at h)
          (take_exact _ base (window stage.lines) (
              omega (
                arith,
                length-append base (window stage.lines),
                length-drop (length stage.lines - 10) stage.lines,
              ))
            ∙ sym (append-nil base)))
    | inr e ↦ rw e (rw e at h)
  ]

last_window_lem :
    (n : ℕ) (ls : List Text)
    → 0 < n
    → n ≤ length ls
    → last_window n ls ≡ some (drop (length ls - n) ls)
unfolding last_window
last_window_lem zero ls p h = absurd (omega arith)
last_window_lem (suc n) ls p h = ground arith

drop_last : (ls : List Text) (line : Text) → drop (length ls) (ls ++ line ∷ []) ≡ line ∷ []
drop_last [] line = refl
drop_last (l ∷ ls) line = drop_last ls line

-- The window that is printed: the last ten lines, or the new line alone if the UI is disabled.
pub printed_window :
    (T : Term) (ls : List Text) (line : Text)
    → last_window (window_size T (ls ++ line ∷ [])) (ls ++ line ∷ [])
      ≡ some (if ui_enabled T then window (ls ++ line ∷ []) else line ∷ [])
unfolding window_size
printed_window T ls line = elim (Bool-cases (ui_enabled T)) [
  | inl e ↦ rw e (
      let size : length (ls ++ line ∷ []) - min (length (ls ++ line ∷ [])) 10
          ≡ length (ls ++ line ∷ []) - 10 =
        omega arith in
      last_window_lem (min (length (ls ++ line ∷ [])) 10) (ls ++ line ∷ [])
        (omega (arith, length-append ls (line ∷ []))) (omega arith)
      ∙ ap (λ n. some (drop n (ls ++ line ∷ []))) size)
  | inr e ↦ rw e (
      let one : min (length (ls ++ line ∷ [])) 1 ≡ 1 =
        omega (arith, length-append ls (line ∷ [])) in
      let size : length (ls ++ line ∷ []) - 1 ≡ length ls =
        omega (arith, length-append ls (line ∷ [])) in
      rw one (
        last_window_lem 1 (ls ++ line ∷ []) (omega arith)
          (omega (arith, length-append ls (line ∷ [])))
        ∙ ap (λ n. some (drop n (ls ++ line ∷ []))) size
        ∙ ap some (drop_last ls line)))
]
