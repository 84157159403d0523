-- ===== src/Ui/Terminal/Written.antt =====
-- What is shown where no write fails.
use vmtest.Base.{
  ℕ, List, [], ◌∷◌, some, Text, Bool-cases, inl, inr, if◌then◌else◌, ◌≡◌, refl, ◌∙◌, ap,
}
use vmtest.Base.Panics.{◌>>=◌}
use vmtest.Ui.Terminal.{Term, Writable, ui_enabled, clear_lines, write_lines}

module _ {T : Term} (W : Writable T) where
  abbrev pub wrote : List Text → T.Screen → T.Screen
  wrote [] s = s
  wrote (line ∷ rest) s = wrote rest (W.written line s)

  abbrev pub without : ℕ → T.Screen → T.Screen
  without n s = if ui_enabled T then W.cleared n s else s

  pub write_lines-wrote : (ls : List Text) (s : T.Screen) → write_lines T ls s ≡ some (wrote ls s)
  unfolding write_lines
  write_lines-wrote [] s = refl
  write_lines-wrote (line ∷ rest) s =
      ap (λ o. o >>= λ s'. write_lines T rest s') (W.write_line-written line s)
      ∙ write_lines-wrote rest (W.written line s)

  pub clear_lines-without : (n : ℕ) (s : T.Screen) → clear_lines T n s ≡ some (without n s)
  unfolding clear_lines
  clear_lines-without n s = elim (Bool-cases (ui_enabled T)) [
    | inl e ↦ rw e (W.clear_last_lines-cleared n s)
    | inr e ↦ rw e refl
  ]
