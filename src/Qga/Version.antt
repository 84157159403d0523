-- ===== src/Qga/Version.antt =====
-- `Version` of src/qga.rs, with `u8::from_str` of the standard library.
pub mod Laws
use vmtest.Base.{
  ℕ, suc, ◌+◌, ◌-◌, ◌*◌, ◌<◌, List, [], ◌∷◌, ◌++◌, Option, none, some, Bool, true, false, ◌&&◌,
  ◌||◌, Text, text, text_eq, nat_eq, ◌==◌, ltb, leb, trim, split, Error, Result, ok, err, bail,
  context, ◌>>=◌, ◌>>◌, if◌then◌else◌,
}

-- The version triple. Each part is a `u8`.
pub record Version : Type 0 where
  pub major : ℕ
  pub minor : ℕ
  pub patch : ℕ

-- `ParseIntError`
pub data IntError : Type 0 where
  empty invalid_digit pos_overflow : IntError

pub data Parsed : Type 0 where
  value : ℕ → Parsed
  failed : IntError → Parsed

-- The digit loop with `checked_mul` and `checked_add` on a `u8`.
u8_digits : ℕ → Text → Parsed
u8_digits n [] = value n
u8_digits n (c ∷ s) =
    let rest = u8_digits (n * 10 + (c - b'0')) s in
    if ltb c b'0' || ltb b'9' c
    then failed invalid_digit
    else if ltb 255 (n * 10)
    then failed pos_overflow
    else if ltb 255 (n * 10 + (c - b'0'))
    then failed pos_overflow
    else rest

-- `u8::from_str`: a leading `+` is dropped if anything follows it.
unfoldable pub u8_from_str : Text → Parsed
unfolding u8_digits
u8_from_str [] = failed empty
u8_from_str (c ∷ []) = u8_digits 0 (c ∷ [])
u8_from_str (c ∷ d ∷ s) = if c == b'+' then u8_digits 0 (d ∷ s) else u8_digits 0 (c ∷ d ∷ s)

unfoldable pub int_error_text : IntError → Text
int_error_text empty = text "cannot parse integer from empty string"
int_error_text invalid_digit = text "invalid digit found in string"
int_error_text pos_overflow = text "number too large to fit in target type"

unfoldable pub parse_error : Text → Text
parse_error s = text "Failed to parse version string '" ++ s ++ text "'"

-- `u8::from_str(part).with_context(err_f)`
unfoldable pub parse_part : Text → Text → Result ℕ
unfolding u8_from_str int_error_text parse_error
parse_part s part = elim (u8_from_str part) [
  | value n ↦ ok n
  | failed e ↦ err (parse_error s ∷ int_error_text e ∷ [])
]

unfoldable pub parse_parts : Text → List Text → Result Version
unfolding parse_part parse_error
parse_parts s (a ∷ b ∷ c ∷ []) = do
  major ← parse_part s a
  minor ← parse_part s b
  patch ← parse_part s c
  ok (record { major = major; minor = minor; patch = patch })
parse_parts s parts = bail (parse_error s)

-- `Version::new`
unfoldable pub new : Text → Result Version
unfolding parse_parts
new s = parse_parts s (split b'.' (trim s))
