-- ===== src/Paths/Components.antt =====
-- The components of paths that are put together.
use vmtest.Base.{
  ℕ, List, [], ◌∷◌, ◌++◌, some, Bool, true, false, Bool-cases, Text, text, text_eq, nat_eq, ◌==◌,
  is_empty, split, push_front, if◌then◌else◌, ◌≡◌, ◌≢◌, refl, ap, ◌∙◌, inl, inr,
}
use vmtest.Paths.{
  slash, is_absolute, Component, root_dir, cur_dir, parent_dir, normal, body_components,
  first_is_dot, components, last_component, all_but_last, component_beq_iff, components_beq,
  ends_with,
}

-- What holds of the first part holds of it behind an append.
first_is_dot-append : (ps qs : List Text) → ps ≢ [] → first_is_dot (ps ++ qs) ≡ first_is_dot ps
first_is_dot-append [] qs ne = absurd (ne refl)
first_is_dot-append (p ∷ ps) qs ne = refl

push_front-append :
    (c : ℕ) (ps qs : List Text) → ps ≢ [] → push_front c (ps ++ qs) ≡ push_front c ps ++ qs
push_front-append c [] qs ne = absurd (ne refl)
push_front-append c (p ∷ ps) qs ne = refl

push_front-ne-nil : (c : ℕ) (ps : List Text) → push_front c ps ≢ []
push_front-ne-nil c [] e = cc
push_front-ne-nil c (p ∷ ps) e = cc

split-ne-nil : (s : Text) → split slash s ≢ []
unfolding split
split-ne-nil [] e = cc
split-ne-nil (c ∷ s) e = by_test (c == slash) e
  where
    by_test : (b : Bool) → (if b then [] ∷ split slash s else push_front c (split slash s)) ≢ []
    by_test true e = cc
    by_test false e = push_front-ne-nil c (split slash s) e

split-append : (s t : Text) → split slash (s ++ slash ∷ t) ≡ split slash s ++ split slash t
unfolding split
split-append [] t = refl
split-append (c ∷ s) t = elim (Bool-cases (c == slash)) [
  | inl e ↦ rw e (ap (λ ps. [] ∷ ps) (split-append s t))
  | inr e ↦ rw e (ap (push_front c) (split-append s t) ∙ push_front-append c _ _ (split-ne-nil s))
]

-- A part in front of the components of the others.
abbrev add_part : (empty dot dots : Bool) → Text → List Component → List Component
add_part empty dot dots p cs =
    if empty then cs else if dot then cs else if dots then parent_dir ∷ cs else normal p ∷ cs

add_part-append :
    (empty dot dots : Bool) (p : Text) (cs ds : List Component)
    → add_part empty dot dots p (cs ++ ds) ≡ add_part empty dot dots p cs ++ ds
add_part-append true dot dots p cs ds = refl
add_part-append false true dots p cs ds = refl
add_part-append false false true p cs ds = refl
add_part-append false false false p cs ds = refl

body_components-append :
    (ps qs : List Text) → body_components (ps ++ qs) ≡ body_components ps ++ body_components qs
body_components-append [] qs = refl
body_components-append (p ∷ ps) qs =
    ap (add_part (is_empty p) (p == text ".") (p == text "..") p) (body_components-append ps qs)
    ∙ add_part-append (is_empty p) (p == text ".") (p == text "..") p _ _

-- What stands in front of the components of the body.
abbrev add_start : (absolute dotted : Bool) → List Component → List Component
add_start absolute dotted cs =
    if absolute then root_dir ∷ cs else if dotted then cur_dir ∷ cs else cs

add_start-append :
    (absolute dotted : Bool) (cs ds : List Component)
    → add_start absolute dotted (cs ++ ds) ≡ add_start absolute dotted cs ++ ds
add_start-append true dotted cs ds = refl
add_start-append false true cs ds = refl
add_start-append false false cs ds = refl

-- Behind a separator, the components of what follows are added.
pub components-append :
    (r t : Text)
    → r ≢ []
    → components (r ++ slash ∷ t) ≡ components r ++ body_components (split slash t)
unfolding components is_absolute
components-append [] t ne = absurd (ne refl)
components-append (c ∷ r) t ne =
    let parts = split slash (c ∷ r) in
    ap (λ ps. add_start (c == slash) (first_is_dot ps) (body_components ps))
      (split-append (c ∷ r) t)
    ∙ ap (λ b. add_start (c == slash) b (body_components (parts ++ split slash t)))
        (first_is_dot-append parts (split slash t) (split-ne-nil (c ∷ r)))
    ∙ ap (add_start (c == slash) (first_is_dot parts))
        (body_components-append parts (split slash t))
    ∙ add_start-append (c == slash) (first_is_dot parts) _ _

pub last_component-append :
    (cs : List Component) (c : Component) → last_component (cs ++ c ∷ []) ≡ some c
last_component-append [] c = refl
last_component-append (d ∷ []) c = refl
last_component-append (d ∷ e ∷ cs) c = last_component-append (e ∷ cs) c

pub all_but_last-append : (cs : List Component) (c : Component) → all_but_last (cs ++ c ∷ []) ≡ cs
all_but_last-append [] c = refl
all_but_last-append (d ∷ []) c = refl
all_but_last-append (d ∷ e ∷ cs) c = ap (λ r. d ∷ r) (all_but_last-append (e ∷ cs) c)

components_beq_refl : (cs : List Component) → components_beq cs cs ≡ true
unfolding components_beq
components_beq_refl [] = refl
components_beq_refl (c ∷ cs) = rw ((component_beq_iff c c).1 refl) (components_beq_refl cs)

pub ends_with-append : (cs ds : List Component) → ends_with (cs ++ ds) ds ≡ true
unfolding ends_with
ends_with-append [] [] = components_beq_refl []
ends_with-append [] (d ∷ ds) = rw (components_beq_refl (d ∷ ds)) refl
ends_with-append (c ∷ cs) ds = elim (Bool-cases (components_beq (c ∷ (cs ++ ds)) ds)) [
  | inl e ↦ rw e refl
  | inr e ↦ rw e (ends_with-append cs ds)
]
