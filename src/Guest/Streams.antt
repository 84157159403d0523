-- ===== src/Guest/Streams.antt =====
-- The two threads that stream output line by line: `stream_command_output` and
-- `Qemu::stream_child_output` of src/qemu.rs, as functions of all that they read. A read error,
-- which is only logged, is left out.
pub mod Lines
use vmtest.Base.{
  ℕ, List, [], ◌∷◌, ◌++◌, map, Option, none, some, Text, ◌==◌, nat_eq, Option-cases, ◌≢◌, inl, inr,
  ◌≡◌, refl, ap, ◌∙◌, All, arith, last?, pop, push_front, if◌then◌else◌,
}
use vmtest.Base.Strings.Laws.{Lacks}
use vmtest.Output.{Output, boot, command}

-- `BufRead::read_line` until the end: each line keeps its newline.
unfoldable pub read_lines : Text → List Text
read_lines [] = []
read_lines (c ∷ s) =
    let rest = read_lines s in if c == b'\n' then (c ∷ []) ∷ rest else push_front c rest

-- `if let Some('\n') = last { line.pop(); }`
abbrev pop_newline : Option ℕ → Text → Text
pop_newline none line = line
pop_newline (some c) line = if c == b'\n' then pop line else line

unfoldable pub remove_newline : Text → Text
unfolding pop last?
remove_newline line = pop_newline (last? line) line

-- What `stream_command_output` hands to the `output` of `run_command`.
unfoldable pub command_updates : Text → List Output
unfolding read_lines remove_newline
command_updates stream = map (λ line. command (remove_newline line)) (read_lines stream)

-- What `stream_child_output` sends. It always pops.
unfoldable pub boot_updates : Text → List Output
unfolding read_lines pop
boot_updates stdout = map (λ line. boot (pop line)) (read_lines stdout)

-- A stream of the given lines, and of a text that no newline ends.
abbrev pub stream_of : List Text → Text → Text
stream_of [] tail = tail
stream_of (l ∷ ls) tail = l ++ (b'\n' ∷ stream_of ls tail)

-- The text at the end makes a line if there is one.
abbrev pub last_line : Text → List Text
last_line [] = []
last_line (c ∷ s) = (c ∷ s) ∷ []

read_lines_of_Lacks : (tail : Text) → Lacks b'\n' tail → read_lines tail ≡ last_line tail
unfolding read_lines
read_lines_of_Lacks [] h = refl
read_lines_of_Lacks (c ∷ []) (ne, h) = ground arith
read_lines_of_Lacks (c ∷ d ∷ s) (ne, h) = ground (arith, read_lines_of_Lacks (d ∷ s) h)

read_lines-append :
    (l s : Text) → Lacks b'\n' l → read_lines (l ++ b'\n' ∷ s) ≡ (l ++ b'\n' ∷ []) ∷ read_lines s
unfolding read_lines
read_lines-append [] s h = refl
read_lines-append (c ∷ l) s (ne, h) = ground (arith, read_lines-append l s h)

last?-append : (l : Text) (c : ℕ) → last? (l ++ c ∷ []) ≡ some c
unfolding last?
last?-append [] c = refl
last?-append (d ∷ []) c = refl
last?-append (d ∷ e ∷ l) c = last?-append (e ∷ l) c

pub pop-append : (l : Text) (c : ℕ) → pop (l ++ c ∷ []) ≡ l
unfolding pop
pop-append [] c = refl
pop-append (d ∷ []) c = refl
pop-append (d ∷ e ∷ l) c = ap (λ s. d ∷ s) (pop-append (e ∷ l) c)

remove_newline-append : (l : Text) → remove_newline (l ++ b'\n' ∷ []) ≡ l
unfolding remove_newline
remove_newline-append l =
    ap (λ o. pop_newline o (l ++ b'\n' ∷ [])) (last?-append l b'\n') ∙ pop-append l b'\n'

last?-Lacks : (l : Text) (c : ℕ) → Lacks b'\n' l → last? l ≡ some c → c ≢ b'\n'
unfolding last?
last?-Lacks [] c h e = cc
last?-Lacks (d ∷ []) c (ne, h) e = λ x. ne cc
last?-Lacks (d ∷ f ∷ l) c (ne, h) e = last?-Lacks (f ∷ l) c h e

remove_newline_of_Lacks : (l : Text) → Lacks b'\n' l → remove_newline l ≡ l
unfolding remove_newline
remove_newline_of_Lacks l h = elim (Option-cases (last? l)) [
  | inl e ↦ ap (λ o. pop_newline o l) e
  | inr (c, e) ↦ let ne : c ≢ b'\n' = last?-Lacks l c h e in rw e (ground arith)
]
  where
    keeps : (c : ℕ) → c ≢ b'\n' → (if c == b'\n' then pop l else l) ≡ l
    keeps c ne = ground arith

-- The lines of a stream, each with its newline where it has one.
read_lines-stream_of :
    (ls : List Text) (tail : Text)
    → All (Lacks b'\n') ls
    → Lacks b'\n' tail
    → read_lines (stream_of ls tail) ≡ map (λ l. l ++ b'\n' ∷ []) ls ++ last_line tail
read_lines-stream_of [] tail h k = read_lines_of_Lacks tail k
read_lines-stream_of (l ∷ ls) tail (h, hs) k =
    read_lines-append l (stream_of ls tail) h
    ∙ ap (λ r. (l ++ b'\n' ∷ []) ∷ r) (read_lines-stream_of ls tail hs k)

-- Each line is treated by itself.
map-stream_of :
    (f : Text → Output) (g : Text → Output) (ls : List Text) (tail : Text)
    → ((l : Text) → f (l ++ b'\n' ∷ []) ≡ g l)
    → map f (map (λ l. l ++ b'\n' ∷ []) ls ++ last_line tail) ≡ map g ls ++ map f (last_line tail)
map-stream_of f g [] tail e = refl
map-stream_of f g (l ∷ ls) tail e = rw (e l) (ap (λ r. g l ∷ r) (map-stream_of f g ls tail e))

last_line-command :
    (tail : Text)
    → Lacks b'\n' tail
    → map (λ line. command (remove_newline line)) (last_line tail) ≡ map command (last_line tail)
last_line-command [] k = refl
last_line-command (c ∷ s) k = ap (λ l. command l ∷ []) (remove_newline_of_Lacks (c ∷ s) k)

-- A stream of lines, each ended by a newline, and of a text that none ends gives one update for
-- each line, with all of its text, and one for the text at the end where it is not empty.
pub command_updates-stream_of :
    (ls : List Text) (tail : Text)
    → All (Lacks b'\n') ls
    → Lacks b'\n' tail
    → command_updates (stream_of ls tail) ≡ map command ls ++ map command (last_line tail)
unfolding command_updates
command_updates-stream_of ls tail h k =
    ap (map (λ line. command (remove_newline line))) (read_lines-stream_of ls tail h k)
    ∙ map-stream_of _ command ls tail (λ l. ap command (remove_newline-append l))
    ∙ ap (λ r. map command ls ++ r) (last_line-command tail k)

-- A stdout of lines, each ended by a newline, and of a text that none ends gives one update for
-- each line, with all of its text, and one for the text at the end where it is not empty, without
-- that text's last character.
pub boot_updates-stream_of :
    (ls : List Text) (tail : Text)
    → All (Lacks b'\n') ls
    → Lacks b'\n' tail
    → boot_updates (stream_of ls tail) ≡ map boot ls ++ map (λ l. boot (pop l)) (last_line tail)
unfolding boot_updates
boot_updates-stream_of ls tail h k =
    ap (map (λ line. boot (pop line))) (read_lines-stream_of ls tail h k)
    ∙ map-stream_of _ boot ls tail (λ l. ap boot (pop-append l b'\n'))
