-- ===== src/Paths/Names.antt =====
-- The name of a file, and the path that has it, are not empty.
use vmtest.Base.{
  ℕ, split, List, [], ◌∷◌, none, some, Bool, true, false, Text, text, text_eq, ◌==◌, if◌then◌else◌,
  ◌≡◌, ◌≢◌, All, ap, refl, text_beq,
}
use vmtest.Paths.{
  Component, normal, root_dir, cur_dir, parent_dir, is_absolute, first_is_dot, components,
  body_components, name_of, last_component, file_name, slash,
}

-- A name among the components is not empty.
abbrev IsNamed : Component → Type 0
IsNamed (normal n) = n ≢ []
IsNamed c = Unit

name-IsNamed :
    (c : ℕ) (s : Text) (rest : List Component) (one two : Bool)
    → All IsNamed rest
    → All IsNamed (if one then rest else if two then parent_dir ∷ rest else normal (c ∷ s) ∷ rest)
name-IsNamed c s rest true two h = h
name-IsNamed c s rest false true h = (tt, h)
name-IsNamed c s rest false false h = (λ e. cc, h)

body_components-IsNamed : (ps : List Text) → All IsNamed (body_components ps)
body_components-IsNamed [] = tt
body_components-IsNamed ([] ∷ ps) = body_components-IsNamed ps
body_components-IsNamed ((c ∷ s) ∷ ps) =
    name-IsNamed c s (body_components ps) ((c ∷ s) == text ".") ((c ∷ s) == text "..")
      (body_components-IsNamed ps)

components-IsNamed : (p : Text) → All IsNamed (components p)
unfolding components
components-IsNamed p = by_start (is_absolute p) (first_is_dot (split slash p))
  where
    by_start :
        (absolute dotted : Bool)
        → All IsNamed (
            if absolute
            then root_dir ∷ body_components (split slash p)
            else if dotted
            then cur_dir ∷ body_components (split slash p)
            else body_components (split slash p))
    by_start true dotted = (tt, body_components-IsNamed (split slash p))
    by_start false true = (tt, body_components-IsNamed (split slash p))
    by_start false false = body_components-IsNamed (split slash p)

last-IsNamed :
    (cs : List Component) (n : Text)
    → All IsNamed cs
    → name_of (last_component cs) ≡ some n
    → n ≢ []
last-IsNamed [] n h e = absurd (cc e)
last-IsNamed (normal m ∷ []) n (h, _) e = λ empty. h (cc (e, empty))
last-IsNamed (root_dir ∷ []) n h e = absurd (cc e)
last-IsNamed (cur_dir ∷ []) n h e = absurd (cc e)
last-IsNamed (parent_dir ∷ []) n h e = absurd (cc e)
last-IsNamed (c ∷ d ∷ cs) n (_, hs) e = last-IsNamed (d ∷ cs) n hs e

no_name : file_name [] ≡ none
unfolding file_name components is_absolute split text_beq
no_name = refl

pub file_name-ne-nil : (p n : Text) → file_name p ≡ some n → (n ≢ []) × (p ≢ [])
file_name-ne-nil p n e = (
  unfold file_name in last-IsNamed (components p) n (components-IsNamed p) e,
  λ empty. cc (no_name, ap file_name empty, e),
)
