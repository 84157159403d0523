-- ===== src/Qga/Version/Laws.antt =====
-- Version texts: every triple of bytes is read back.
use vmtest.Base.{
  ℕ, zero, suc, ◌<◌, [], ◌∷◌, ◌++◌, Bool, true, false, ◌&&◌, Text, nat_eq, ◌==◌, leb, is_whitespace,
  split, show, ok, ◌≡◌, refl, arith, All-append, all,
}
use vmtest.Base.Strings.Laws.{NoSpace, Lacks, split_of_Lacks, split-append, trim_of_NoSpace}
use vmtest.Qga.Version.{Version, Parsed, value, failed, u8_from_str, parse_part, parse_parts, new}

-- Each part of a version fits a `u8`.
pub record IsVersion (v : Version) : Type 0 where
  pub major_lt : v.major < 256
  pub minor_lt : v.minor < 256
  pub patch_lt : v.patch < 256

-- A test that holds of every number under a bound, found by evaluation.
holds_under : (ℕ → Bool) → ℕ → Bool
holds_under test zero = true
holds_under test (suc bound) = holds_under test bound && test bound

holds_under-at :
    (test : ℕ → Bool) (bound n : ℕ) → n < bound → holds_under test bound ≡ true → test n ≡ true
unfolding holds_under
holds_under-at test zero n lt h = absurd (omega arith)
holds_under-at test (suc bound) n lt h = ground (arith, holds_under-at test bound n)

abbrev is_digit : ℕ → Bool
is_digit c = leb b'0' c && leb c b'9'

abbrev reads_as : ℕ → Parsed → Bool
reads_as n (value m) = m == n
reads_as n (failed e) = false

abbrev shown_well : ℕ → Bool
shown_well n = reads_as n (u8_from_str (show n)) && all is_digit (show n)

shown_table : holds_under shown_well 256 ≡ true
unfolding holds_under u8_from_str show
shown_table = refl

shown : (n : ℕ) → n < 256 → (u8_from_str (show n) ≡ value n) × (all is_digit (show n) ≡ true)
shown n h = ground (arith, holds_under-at shown_well 256 n h shown_table)

all_digits-NoSpace : (s : Text) → all is_digit s ≡ true → NoSpace s
unfolding is_whitespace
all_digits-NoSpace [] h = tt
all_digits-NoSpace (c ∷ s) h = ground (arith, all_digits-NoSpace s)

all_digits-Lacks : (s : Text) → all is_digit s ≡ true → Lacks b'.' s
all_digits-Lacks [] h = tt
all_digits-Lacks (c ∷ s) h = ground (arith, all_digits-Lacks s)

-- `{major}.{minor}.{patch}`
abbrev pub print : Version → Text
print v = show v.major ++ b'.' ∷ (show v.minor ++ b'.' ∷ show v.patch)

print-NoSpace : (v : Version) → IsVersion v → NoSpace (print v)
unfolding is_whitespace
print-NoSpace v h = All-append _ (show v.major) _ (all_digits-NoSpace _ (shown _ h.major_lt).1) (
  refl,
  All-append _ (show v.minor) _ (all_digits-NoSpace _ (shown _ h.minor_lt).1)
      (refl, all_digits-NoSpace _ (shown _ h.patch_lt).1),
)

split-print :
    (v : Version)
    → IsVersion v
    → split b'.' (print v) ≡ show v.major ∷ show v.minor ∷ show v.patch ∷ []
split-print v h = rw (
  split-append b'.' (show v.major) (show v.minor ++ b'.' ∷ show v.patch)
      (all_digits-Lacks _ (shown _ h.major_lt).1),
  split-append b'.' (show v.minor) (show v.patch) (all_digits-Lacks _ (shown _ h.minor_lt).1),
  split_of_Lacks b'.' (show v.patch) (all_digits-Lacks _ (shown _ h.patch_lt).1),
)

parse_part-show : (s : Text) (n : ℕ) → n < 256 → parse_part s (show n) ≡ ok n
unfolding parse_part
parse_part-show s n h = rw ((shown n h).0, parse_part)

-- The text of every version whose parts fit a `u8` is read back as that version.
pub new-print : (v : Version) → IsVersion v → new (print v) ≡ ok v
unfolding new parse_parts
new-print v h = rw (
  trim_of_NoSpace (print v) (print-NoSpace v h),
  split-print v h,
  parse_part-show _ v.major h.major_lt,
  parse_part-show _ v.minor h.minor_lt,
  parse_part-show _ v.patch h.patch_lt,
)
