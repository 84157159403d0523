-- ===== src/Guest/Streams/Lines.antt =====
-- Whatever the threads read, each update that they send carries one line and settles nothing.
use vmtest.Base.{
  ℕ, List, [], ◌∷◌, map, Text, nat_eq, ◌==◌, Bool-cases, pop, ◌≡◌, ◌≢◌, refl, sym, ap, ◌∙◌, All,
  All-append, arith, inl, inr,
}
use mathlib.Core.Path.{subst}
use vmtest.Base.Strings.Laws.{Lacks, length-lines_of_Lacks}
use vmtest.Output.{Output, boot, command}
use vmtest.Guest.Streams.{
  command_updates, boot_updates, stream_of, last_line, command_updates-stream_of,
  boot_updates-stream_of,
}
use vmtest.Ui.Target.Verdict.{SingleLine, IsQuiet}

-- Every text is a stream of lines.
record IsStream (s : Text) : Type 0 where
  ls : List Text
  tail : Text
  parts : s ≡ stream_of ls tail
  ls_Lacks : All (Lacks b'\n') ls
  tail_Lacks : Lacks b'\n' tail

cons-IsStream : (c : ℕ) (s : Text) → c ≢ b'\n' → IsStream s → IsStream (c ∷ s)
cons-IsStream c s ne r = go r.ls r.ls_Lacks r.parts
  where
    go : (ls : List Text) → All (Lacks b'\n') ls → s ≡ stream_of ls r.tail → IsStream (c ∷ s)
    go [] h e = record {
      ls = [];
      tail = c ∷ r.tail;
      parts = ap (λ t. c ∷ t) e;
      ls_Lacks = tt;
      tail_Lacks = (ne, r.tail_Lacks);
    }
    go (l ∷ ls) (h, hs) e = record {
      ls = (c ∷ l) ∷ ls;
      tail = r.tail;
      parts = ap (λ t. c ∷ t) e;
      ls_Lacks = ((ne, h), hs);
      tail_Lacks = r.tail_Lacks;
    }

stream : (s : Text) → IsStream s
stream [] = record { ls = []; tail = []; parts = refl; ls_Lacks = tt; tail_Lacks = tt }
stream (c ∷ s) =
    let r = stream s in
    elim (Bool-cases (c == b'\n')) [
      | inl e ↦
          let same : c ≡ b'\n' = ground arith in
          record {
            ls = [] ∷ r.ls;
            tail = r.tail;
            parts = rw same (ap (λ t. b'\n' ∷ t) r.parts);
            ls_Lacks = (tt, r.ls_Lacks);
            tail_Lacks = r.tail_Lacks;
          }
      | inr e ↦ cons-IsStream c s (ground arith) r
    ]

-- The update carries one line, and does not settle the result.
abbrev pub IsLine : Output → Type 0
IsLine msg = SingleLine msg × IsQuiet msg

map-All :
    (f : Text → Output) (ls : List Text)
    → ((l : Text) → Lacks b'\n' l → IsLine (f l))
    → All (Lacks b'\n') ls
    → All IsLine (map f ls)
map-All f [] k h = tt
map-All f (l ∷ ls) k (h, hs) = (k l h, map-All f ls k hs)

last_line-Lacks : (tail : Text) → Lacks b'\n' tail → All (Lacks b'\n') (last_line tail)
last_line-Lacks [] h = tt
last_line-Lacks (c ∷ s) h = (h, tt)

pop-Lacks : (l : Text) → Lacks b'\n' l → Lacks b'\n' (pop l)
unfolding pop
pop-Lacks [] h = tt
pop-Lacks (c ∷ []) h = tt
pop-Lacks (c ∷ d ∷ l) (h, hs) = (h, pop-Lacks (d ∷ l) hs)

pub command_updates-IsLine : (s : Text) → All IsLine (command_updates s)
command_updates-IsLine s =
    let r = stream s in
    subst (All IsLine)
      (sym (
        ap command_updates r.parts ∙ command_updates-stream_of r.ls r.tail r.ls_Lacks r.tail_Lacks))
      (All-append IsLine _ _
        (map-All command r.ls (λ l h. (length-lines_of_Lacks l h, refl)) r.ls_Lacks)
        (map-All command (last_line r.tail) (λ l h. (length-lines_of_Lacks l h, refl))
          (last_line-Lacks r.tail r.tail_Lacks)))

pub boot_updates-IsLine : (s : Text) → All IsLine (boot_updates s)
boot_updates-IsLine s =
    let r = stream s in
    subst (All IsLine)
      (sym (ap boot_updates r.parts ∙ boot_updates-stream_of r.ls r.tail r.ls_Lacks r.tail_Lacks))
      (All-append IsLine _ _
        (map-All boot r.ls (λ l h. (length-lines_of_Lacks l h, refl)) r.ls_Lacks)
        (map-All (λ l. boot (pop l)) (last_line r.tail)
          (λ l h. (length-lines_of_Lacks (pop l) (pop-Lacks l h), refl))
          (last_line-Lacks r.tail r.tail_Lacks)))
