-- ===== src/Output/Order.antt =====
-- The state machine that the documentation of `Output` describes, as an automaton.
use vmtest.Base.{List, [], ◌∷◌, ◌++◌, Option, none, some, ok, err, ◌≡◌, refl, All}
use vmtest.Base.Panics.{◌>>=◌}
use vmtest.Output.{
  Output, boot_start, boot, boot_end, setup_start, setup, setup_end, command_start, command,
  command_end,
}

pub data Phase : Type 0 where
  idle booting booted setting_up ready running finished failed : Phase

-- The updates come in the order in which the enum defines them, and a failure is terminal. A
-- target may fail before its boot has begun.
abbrev pub advance : Phase → Output → Option Phase
advance idle boot_start = some booting
advance idle (boot_end (err e)) = some failed
advance booting (boot s) = some booting
advance booting (boot_end (ok _)) = some booted
advance booting (boot_end (err e)) = some failed
advance booted setup_start = some setting_up
advance setting_up (setup s) = some setting_up
advance setting_up (setup_end (ok _)) = some ready
advance setting_up (setup_end (err e)) = some failed
advance ready command_start = some running
advance running (command s) = some running
advance running (command_end (ok rc)) = some finished
advance running (command_end (err e)) = some failed
advance _ _ = none

abbrev pub follow : Phase → List Output → Option Phase
follow p [] = some p
follow p (msg ∷ msgs) = advance p msg >>= λ q. follow q msgs

pub follow-append :
    (p : Phase) (xs ys : List Output) → follow p (xs ++ ys) ≡ (follow p xs >>= λ q. follow q ys)
follow-append p [] ys = refl
follow-append p (x ∷ xs) ys = go (advance p x) (λ q. follow-append q xs ys)
  where
    go :
        (o : Option Phase)
        → ((q : Phase) → follow q (xs ++ ys) ≡ (follow q xs >>= λ r. follow r ys))
        → (o >>= λ q. follow q (xs ++ ys)) ≡ ((o >>= λ q. follow q xs) >>= λ q. follow q ys)
    go none ih = refl
    go (some q) ih = ih q

-- The update leaves the phase as it is.
abbrev pub Stays : Phase → Output → Type 0
Stays p msg = advance p msg ≡ some p

pub follow-Stays : (p : Phase) (msgs : List Output) → All (Stays p) msgs → follow p msgs ≡ some p
follow-Stays p [] h = refl
follow-Stays p (msg ∷ msgs) (h, hs) = rw (h, ◌>>=◌) (follow-Stays p msgs hs)
