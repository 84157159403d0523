-- ===== src/Base/Strings/Laws.antt =====
-- Laws of splitting, trimming and joining.
use Prim.Native.Nat.{ℕ, ◌≤◌}
use mathlib.Core.Path.{◌≡◌, refl, ap}
use mathlib.Core.Logic.{◌≢◌, inl, inr}
use mathlib.Core.Bool.{Bool, true, false, ◌&&◌}
use mathlib.Core.List.{List, [], ◌∷◌, ◌++◌}
use native.Mathlib.Omega.{arith}
use vmtest.Base.Tests.{nat_eq, ◌==◌, Bool-cases, if◌then◌else◌}
use vmtest.Base.Lists.{All, All-append, length}
use vmtest.Base.Strings.{
  Text, is_empty, is_whitespace, trim, trim_end, trim_start, push_front, split, strip_cr,
  ended_lines, lines, nonempty_parts, split_at_whitespace, split_whitespace, join,
}

-- The character does not occur.
abbrev pub Lacks : ℕ → Text → Type 0
Lacks c = All (λ d. d ≢ c)

abbrev free_of : ℕ → Text → Bool
free_of c [] = true
free_of c (d ∷ s) = if d == c then false else free_of c s

-- Of a literal, by evaluation.
pub Lacks-of_free : (c : ℕ) (s : Text) → free_of c s ≡ true → Lacks c s
Lacks-of_free c [] h = tt
Lacks-of_free c (d ∷ s) h = ground (arith, Lacks-of_free c s)

-- No character is white space.
abbrev pub NoSpace : Text → Type 0
NoSpace = All (λ c. is_whitespace c ≡ false)

-- A token survives splitting at white space.
abbrev pub IsToken : Text → Type 0
IsToken s = (s ≢ []) × NoSpace s

pub split_of_Lacks : (sep : ℕ) (s : Text) → Lacks sep s → split sep s ≡ s ∷ []
unfolding split
split_of_Lacks sep [] h = refl
split_of_Lacks sep (c ∷ s) (ne, h) = ground (arith, split_of_Lacks sep s h)

pub split-append : (sep : ℕ) (s t : Text) → Lacks sep s → split sep (s ++ sep ∷ t) ≡ s ∷ split sep t
unfolding split
split-append sep [] t h = ground arith
split-append sep (c ∷ s) t (ne, h) = ground (arith, split-append sep s t h)

pub trim_start_of_NoSpace : (s : Text) → NoSpace s → trim_start s ≡ s
unfolding trim_start
trim_start_of_NoSpace [] h = refl
trim_start_of_NoSpace (c ∷ s) (ne, h) = rw ne

pub trim_end_of_NoSpace : (s : Text) → NoSpace s → trim_end s ≡ s
unfolding trim_end
trim_end_of_NoSpace [] h = refl
trim_end_of_NoSpace (c ∷ s) (ne, h) = ground (arith, trim_end_of_NoSpace s h)

pub trim_of_NoSpace : (s : Text) → NoSpace s → trim s ≡ s
trim_of_NoSpace s h = rw (trim_start_of_NoSpace s h) (trim_end_of_NoSpace s h)

-- Trimming the end keeps what holds of each character.
pub trim_end-All {κ} : (P : ℕ → Type κ) (s : Text) → All P s → All P (trim_end s)
unfolding trim_end
trim_end-All P [] h = tt
trim_end-All P (c ∷ s) (p, h) = elim (Bool-cases (is_empty (trim_end s) && is_whitespace c)) [
  | inl e ↦ rw e tt
  | inr e ↦ rw e (p, trim_end-All P s h)
]

push_front-append :
    (c : ℕ) (ps qs : List Text) → ps ≢ [] → push_front c ps ++ qs ≡ push_front c (ps ++ qs)
push_front-append c [] qs h = absurd (h refl)
push_front-append c (p ∷ ps) qs h = refl

push_front-ne-nil : (c : ℕ) (ps : List Text) → push_front c ps ≢ []
push_front-ne-nil c [] h = cc
push_front-ne-nil c (p ∷ ps) h = cc

split_at_whitespace-ne-nil : (s : Text) → split_at_whitespace s ≢ []
unfolding split_at_whitespace
split_at_whitespace-ne-nil [] h = cc
split_at_whitespace-ne-nil (c ∷ s) h = ground (arith, push_front-ne-nil c (split_at_whitespace s))

split_at_whitespace-append :
    (s t : Text)
    → split_at_whitespace (s ++ 32 ∷ t) ≡ split_at_whitespace s ++ split_at_whitespace t
unfolding split_at_whitespace is_whitespace
split_at_whitespace-append [] t = refl
split_at_whitespace-append (c ∷ s) t = elim (Bool-cases (is_whitespace c)) [
  | inl e ↦ rw (e, split_at_whitespace-append s t)
  | inr e ↦
      rw (e, split_at_whitespace-append s t)
        (ground (
          arith,
          push_front-append c (split_at_whitespace s) (split_at_whitespace t)
              (split_at_whitespace-ne-nil s),
        ))
]

nonempty_parts-append :
    (ps qs : List Text) → nonempty_parts (ps ++ qs) ≡ nonempty_parts ps ++ nonempty_parts qs
nonempty_parts-append [] qs = refl
nonempty_parts-append (p ∷ ps) qs = ground (arith, nonempty_parts-append ps qs)

-- A space between two texts separates their words.
pub split_whitespace-append :
    (s t : Text) → split_whitespace (s ++ 32 ∷ t) ≡ split_whitespace s ++ split_whitespace t
unfolding split_whitespace
split_whitespace-append s t =
    rw (split_at_whitespace-append s t)
      (nonempty_parts-append (split_at_whitespace s) (split_at_whitespace t))

split_at_whitespace_of_NoSpace : (s : Text) → NoSpace s → split_at_whitespace s ≡ s ∷ []
unfolding split_at_whitespace
split_at_whitespace_of_NoSpace [] h = refl
split_at_whitespace_of_NoSpace (c ∷ s) (ne, h) = rw (ne, split_at_whitespace_of_NoSpace s h)

pub split_whitespace_of_IsToken : (s : Text) → IsToken s → split_whitespace s ≡ s ∷ []
unfolding split_whitespace
split_whitespace_of_IsToken s (ne, h) = rw (split_at_whitespace_of_NoSpace s h) (ground arith)

push_front-NoSpace :
    (c : ℕ) (ps : List Text)
    → is_whitespace c ≡ false
    → All NoSpace ps
    → All NoSpace (push_front c ps)
push_front-NoSpace c [] e h = ((e, tt), tt)
push_front-NoSpace c (p ∷ ps) e (hp, h) = ((e, hp), h)

split_at_whitespace-NoSpace : (s : Text) → All NoSpace (split_at_whitespace s)
unfolding split_at_whitespace
split_at_whitespace-NoSpace [] = (tt, tt)
split_at_whitespace-NoSpace (c ∷ s) = elim (Bool-cases (is_whitespace c)) [
  | inl e ↦ rw e (tt, split_at_whitespace-NoSpace s)
  | inr e ↦ rw e (push_front-NoSpace c (split_at_whitespace s) e (split_at_whitespace-NoSpace s))
]

nonempty_parts-IsToken : (ps : List Text) → All NoSpace ps → All IsToken (nonempty_parts ps)
nonempty_parts-IsToken [] h = tt
nonempty_parts-IsToken ([] ∷ ps) (hp, h) = nonempty_parts-IsToken ps h
nonempty_parts-IsToken ((c ∷ p) ∷ ps) (hp, h) = (((λ e. cc), hp), nonempty_parts-IsToken ps h)

-- Each word is a token.
pub split_whitespace-IsToken : (s : Text) → All IsToken (split_whitespace s)
unfolding split_whitespace
split_whitespace-IsToken s =
    nonempty_parts-IsToken (split_at_whitespace s) (split_at_whitespace-NoSpace s)

-- Words joined by spaces are split back into the same words.
pub split_whitespace-join :
    (ts : List Text) → All IsToken ts → split_whitespace (join (32 ∷ []) ts) ≡ ts
unfolding join
split_whitespace-join [] h = unfold split_whitespace in refl
split_whitespace-join (t ∷ []) (h, _) = split_whitespace_of_IsToken t h
split_whitespace-join (t ∷ u ∷ ts) (h, hs) =
    rw (split_whitespace-append t (join (32 ∷ []) (u ∷ ts)), split_whitespace_of_IsToken t h)
      (ap (λ us. t ∷ us) (split_whitespace-join (u ∷ ts) hs))

-- A text without a line feed is at most one line.
pub length-lines_of_Lacks : (s : Text) → Lacks 10 s → length (lines s) ≤ 1
unfolding lines
length-lines_of_Lacks s h = rw (split_of_Lacks 10 s h) (ground arith)

push_front-Lacks :
    (sep c : ℕ) (ps : List Text) → c ≢ sep → All (Lacks sep) ps → All (Lacks sep) (push_front c ps)
push_front-Lacks sep c [] ne h = ((ne, tt), tt)
push_front-Lacks sep c (p ∷ ps) ne (hp, h) = ((ne, hp), h)

pub split-Lacks : (sep : ℕ) (s : Text) → All (Lacks sep) (split sep s)
unfolding split
split-Lacks sep [] = (tt, tt)
split-Lacks sep (c ∷ s) = elim (Bool-cases (c == sep)) [
  | inl e ↦ rw e (tt, split-Lacks sep s)
  | inr e ↦ rw e (push_front-Lacks sep c (split sep s) (ground arith) (split-Lacks sep s))
]

strip_cr-Lacks : (sep : ℕ) (s : Text) → Lacks sep s → Lacks sep (strip_cr s)
strip_cr-Lacks sep [] h = tt
strip_cr-Lacks sep (c ∷ []) (h, _) = ground arith
strip_cr-Lacks sep (c ∷ d ∷ s) (hc, h) = (hc, strip_cr-Lacks sep (d ∷ s) h)

ended_lines-Lacks :
    (sep : ℕ) (ps : List Text) → All (Lacks sep) ps → All (Lacks sep) (ended_lines ps)
ended_lines-Lacks sep [] h = tt
ended_lines-Lacks sep ([] ∷ []) h = tt
ended_lines-Lacks sep ((c ∷ p) ∷ []) h = h
ended_lines-Lacks sep (p ∷ q ∷ ps) (hp, h) =
    (strip_cr-Lacks sep p hp, ended_lines-Lacks sep (q ∷ ps) h)

-- No line of a text holds a line feed.
pub lines-Lacks : (s : Text) → All (Lacks 10) (lines s)
unfolding lines
lines-Lacks s = ended_lines-Lacks 10 (split 10 s) (split-Lacks 10 s)

abbrev spaceless : Text → Bool
spaceless [] = true
spaceless (c ∷ s) = if is_whitespace c then false else spaceless s

-- A literal has no white space if the test, which evaluates, says so.
pub NoSpace-of_spaceless : (s : Text) → spaceless s ≡ true → NoSpace s
NoSpace-of_spaceless [] h = tt
NoSpace-of_spaceless (c ∷ s) h = ground (arith, NoSpace-of_spaceless s)

pub IsToken-of_spaceless : (c : ℕ) (s : Text) → spaceless (c ∷ s) ≡ true → IsToken (c ∷ s)
IsToken-of_spaceless c s h = ((λ e. cc), NoSpace-of_spaceless (c ∷ s) h)

pub IsToken-append :
    (c : ℕ) (s t : Text) → spaceless (c ∷ s) ≡ true → NoSpace t → IsToken ((c ∷ s) ++ t)
IsToken-append c s t h k = ((λ e. cc), All-append _ (c ∷ s) t (NoSpace-of_spaceless (c ∷ s) h) k)
