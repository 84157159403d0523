-- ===== src/Base/Integers.antt =====
-- Signed integers over the native numbers, for exit codes and process ids.
use Prim.Native.Nat.{ℕ, ◌-◌, ◌%◌, ◌^◌, ◌<◌}
use mathlib.Core.Path.{◌≡◌}
use mathlib.Core.Logic.{◌↔◌}
use mathlib.Core.Bool.{Bool, true, false}
use native.Mathlib.Omega.{arith}
use vmtest.Base.Tests.{ltb, nat_beq, Eq, if◌then◌else◌}

-- `negsuc n` is -(n + 1).
pub data ℤ : Type 0 where
  pos : ℕ → ℤ
  negsuc : ℕ → ℤ

abbrev pub ℤ_beq : ℤ → ℤ → Bool
ℤ_beq (pos m) (pos n) = nat_beq m n
ℤ_beq (pos m) (negsuc n) = false
ℤ_beq (negsuc m) (pos n) = false
ℤ_beq (negsuc m) (negsuc n) = nat_beq m n

pub ℤ_beq_iff : (a b : ℤ) → (ℤ_beq a b ≡ true) ↔ (a ≡ b)
ℤ_beq_iff a b = ground arith

instance abbrev pub ℤ_eq : Eq ℤ
ℤ_eq = record { beq = ℤ_beq; beq_iff = ℤ_beq_iff }

-- The value range of a signed integer of w + 1 bits.
abbrev pub IsSigned : ℕ → ℤ → Type 0
IsSigned w (pos n) = n < 2 ^ w
IsSigned w (negsuc n) = n < 2 ^ w

-- The integer whose low 32 bits, read as a two's complement number, are `n % 2 ^ 32`.
abbrev pub of_bits32 : ℕ → ℤ
of_bits32 n = if ltb n (2 ^ 31) then pos n else negsuc (2 ^ 32 - 1 - n)

-- `as i32`
unfoldable pub as_i32 : ℤ → ℤ
as_i32 (pos n) = of_bits32 (n % 2 ^ 32)
as_i32 (negsuc n) = of_bits32 (2 ^ 32 - 1 - n % 2 ^ 32)

pub as_i32_of_IsSigned : (a : ℤ) → IsSigned 31 a → as_i32 a ≡ a
unfolding as_i32
as_i32_of_IsSigned (pos n) h = ground arith
as_i32_of_IsSigned (negsuc n) h = ground arith

pub as_i32-IsSigned : (a : ℤ) → IsSigned 31 (as_i32 a)
unfolding as_i32
as_i32-IsSigned (pos n) = ground arith
as_i32-IsSigned (negsuc n) = ground arith
