-- ===== src/Paths/Parent.antt =====
-- `Path::parent` on the text of a path, as `std::path` computes it: from the back, over the
-- reversed text. What stands before the body, `/` or a leading `.`, is never trimmed.
use vmtest.Base.{
  ℕ, [], ◌∷◌, ◌++◌, Option, none, some, Bool, true, Text, text, nat_eq, ◌==◌, ◌&&◌, ◌||◌, ◌≡◌, refl,
  if◌then◌else◌,
}
use vmtest.Paths.{slash}

abbrev pub dot : ℕ
dot = b'.'

unfoldable pub reverse : Text → Text
reverse [] = []
reverse (c ∷ s) = reverse s ++ c ∷ []

-- The text is empty or starts with a separator.
abbrev pub at_separator : Text → Bool
at_separator [] = true
at_separator (c ∷ s) = c == slash

-- Separators, and components `.`, at the end.
unfoldable pub trim_right : Text → Text
trim_right [] = []
trim_right (c ∷ s) =
    let rest = trim_right s in if c == slash || (c == dot && at_separator s) then rest else c ∷ s

unfoldable pub drop_name : Text → Text
drop_name [] = []
drop_name (c ∷ s) = let rest = drop_name s in if c == slash then c ∷ s else rest

-- The path is split into what stands before its body, and the body.
unfoldable pub before_body : Text → Text × Text
before_body [] = ([], [])
before_body (c ∷ s) =
    if c == slash || (c == dot && at_separator s) then (c ∷ [], s) else ([], c ∷ s)

-- The parent of a path by its last component: a name goes, then a leading `.`, and a root and the
-- empty path have none.
abbrev pub parent_from : Text → Text → Option Text
parent_from [] [] = none
parent_from (p ∷ _) [] = if p == dot then some [] else none
parent_from prefix (c ∷ body) = some (prefix ++ reverse (trim_right (drop_name (c ∷ body))))

unfoldable pub parent_path : Text → Option Text
unfolding reverse trim_right drop_name before_body
parent_path p = let (prefix, body) = before_body p in parent_from prefix (trim_right (reverse body))

bare_name : parent_path (text "vmtest.toml") ≡ some []
unfolding parent_path
bare_name = refl
