-- ===== src/Paths.antt =====
-- The part of `std::path` that src/vmtest.rs and src/qemu.rs use, on Unix paths.
pub mod Parent
pub mod Names
pub mod Components
use vmtest.Base.{
  ℕ, List, [], ◌∷◌, ◌++◌, Option, none, some, Bool, true, false, Text, text, text_eq, nat_eq, ◌==◌,
  ◌&&◌, not, is_empty, split, last?, if◌then◌else◌, ◌≡◌, ◌↔◌, arith, text_beq_iff,
}

abbrev pub slash : ℕ
slash = b'/'

-- `Path::is_absolute`
unfoldable pub is_absolute : Text → Bool
is_absolute [] = false
is_absolute (c ∷ p) = c == slash

abbrev pub is_relative : Text → Bool
is_relative p = not (is_absolute p)

abbrev ends_in_slash : Option ℕ → Bool
ends_in_slash none = true
ends_in_slash (some c) = c == slash

-- `PathBuf::push`: an absolute path replaces, a relative one is appended behind a separator.
unfoldable pub push : Text → Text → Text
unfolding is_absolute last?
push base p =
    if is_absolute p then p else if ends_in_slash (last? base) then base ++ p else base ++ slash ∷ p

pub data Component : Type 0 where
  root_dir cur_dir parent_dir : Component
  normal : Text → Component

-- Separators may be doubled, and `.` is dropped but at the front of a relative path.
abbrev pub body_components : List Text → List Component
body_components [] = []
body_components (p ∷ ps) =
    let rest = body_components ps in
    if is_empty p
    then rest
    else if p == text "."
    then rest
    else if p == text ".."
    then parent_dir ∷ rest
    else normal p ∷ rest

abbrev pub first_is_dot : List Text → Bool
first_is_dot [] = false
first_is_dot (p ∷ ps) = p == text "."

-- `Path::components`
unfoldable pub components : Text → List Component
unfolding is_absolute split
components p =
    let parts = split slash p in
    if is_absolute p
    then root_dir ∷ body_components parts
    else if first_is_dot parts
    then cur_dir ∷ body_components parts
    else body_components parts

abbrev pub last_component : List Component → Option Component
last_component [] = none
last_component (c ∷ []) = some c
last_component (c ∷ d ∷ cs) = last_component (d ∷ cs)

abbrev pub all_but_last : List Component → List Component
all_but_last [] = []
all_but_last (c ∷ []) = []
all_but_last (c ∷ d ∷ cs) = c ∷ all_but_last (d ∷ cs)

-- `Path::parent`, by its components: there is none of a root and of the empty path.
abbrev pub parent_behind : Option Component → List Component → Option (List Component)
parent_behind none cs = none
parent_behind (some root_dir) cs = none
parent_behind (some c) cs = some (all_but_last cs)

abbrev pub parent_of : List Component → Option (List Component)
parent_of cs = parent_behind (last_component cs) cs

unfoldable pub parent : Text → Option (List Component)
unfolding components
parent p = parent_of (components p)

-- `Path::file_name`
abbrev pub name_of : Option Component → Option Text
name_of (some (normal n)) = some n
name_of c = none

unfoldable pub file_name : Text → Option Text
unfolding components
file_name p = name_of (last_component (components p))

unfoldable pub component_beq : Component → Component → Bool
component_beq root_dir root_dir = true
component_beq cur_dir cur_dir = true
component_beq parent_dir parent_dir = true
component_beq (normal a) (normal b) = a == b
component_beq a b = false

pub component_beq_iff : (a b : Component) → (component_beq a b ≡ true) ↔ (a ≡ b)
unfolding component_beq
component_beq_iff (normal a) (normal b) = ground (arith, text_beq_iff a b)
component_beq_iff a b = ground arith

unfoldable pub components_beq : List Component → List Component → Bool
components_beq [] [] = true
components_beq [] (d ∷ ds) = false
components_beq (c ∷ cs) [] = false
components_beq (c ∷ cs) (d ∷ ds) = component_beq c d && components_beq cs ds

-- `Path::ends_with`, over components
unfoldable pub ends_with : List Component → List Component → Bool
unfolding components_beq component_beq
ends_with [] suffix = components_beq [] suffix
ends_with (c ∷ cs) suffix =
    let rest = ends_with cs suffix in if components_beq (c ∷ cs) suffix then true else rest

-- `Path::strip_prefix("/")`: it fails on a relative path.
abbrev pub strip_root : List Component → Option (List Component)
strip_root (root_dir ∷ cs) = some cs
strip_root cs = none
