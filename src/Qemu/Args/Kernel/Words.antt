-- ===== src/Qemu/Args/Kernel/Words.antt =====
-- The guest's kernel reads the command line as words: vmtest's own, then the user's.
use vmtest.Base.{
  ◌++◌, Option, none, some, Text, text, text_eq, ◌==◌, split_whitespace, is_whitespace, ◌≡◌, refl,
  All, All-append, Bool-cases, inl, inr,
}
use vmtest.Base.Strings.Laws.{
  IsToken, NoSpace, split_whitespace-join, split_whitespace-IsToken, NoSpace-of_spaceless,
  IsToken-of_spaceless, IsToken-append,
}
use vmtest.Qemu.Args.Kernel.{console_device, base_cmdline, additional_words, cmdline}

console-NoSpace : (arch : Text) → NoSpace (console_device arch)
unfolding console_device is_whitespace
console-NoSpace arch = elim (Bool-cases (arch == text "aarch64")) [
  | inl e ↦ rw e (NoSpace-of_spaceless (text "ttyAMA0") refl)
  | inr e ↦ rw e (NoSpace-of_spaceless (text "0") refl)
]

console_speed-NoSpace : (arch : Text) → NoSpace (console_device arch ++ text ",115200")
unfolding is_whitespace
console_speed-NoSpace arch =
    All-append _ (console_device arch) (text ",115200") (console-NoSpace arch)
      (NoSpace-of_spaceless (text ",115200") refl)

base_cmdline-IsToken : (arch init : Text) → NoSpace init → All IsToken (base_cmdline arch init)
unfolding base_cmdline is_whitespace
base_cmdline-IsToken arch init h = (
  IsToken-of_spaceless _ _ refl,
  (
    IsToken-of_spaceless _ _ refl,
    (
      IsToken-of_spaceless _ _ refl,
      (
        IsToken-append b'e' (text "arlyprintk=serial,") _ refl (console_speed-NoSpace arch),
        (
          IsToken-of_spaceless _ _ refl,
          (
            IsToken-append b'c' (text "onsole=") _ refl (console_speed-NoSpace arch),
            (
              IsToken-of_spaceless _ _ refl,
              (
                IsToken-of_spaceless _ _ refl,
                (
                  IsToken-append b'i' (text "nit=") init refl h,
                  (IsToken-of_spaceless _ _ refl, tt),
                ),
              ),
            ),
          ),
        ),
      ),
    ),
  ),
)

additional_words-IsToken : (kargs : Option Text) → All IsToken (additional_words kargs)
unfolding additional_words
additional_words-IsToken none = tt
additional_words-IsToken (some kargs) = split_whitespace-IsToken kargs

-- If the path of the init script has no white space, the words of the guest's command line are
-- the ten that vmtest sets, unbroken, and behind them the words of the additional arguments.
pub words-cmdline :
    (arch init : Text) (kargs : Option Text)
    → NoSpace init
    → split_whitespace (cmdline arch init kargs) ≡ base_cmdline arch init ++ additional_words kargs
unfolding cmdline
words-cmdline arch init kargs h =
    split_whitespace-join (base_cmdline arch init ++ additional_words kargs) (
      All-append IsToken (base_cmdline arch init) (additional_words kargs)
        (base_cmdline-IsToken arch init h) (additional_words-IsToken kargs))
