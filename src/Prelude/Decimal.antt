-- ===== src/Prelude/Decimal.antt =====
-- `%d` of the package fmt: integers in decimal.
use Prim.Native.Nat.{ℕ, zero, suc, ◌+◌, ◌-◌, ◌*◌, ◌/◌, ◌%◌, ◌^◌, ◌≤◌, ◌<◌}
use mathlib.Core.Path.{◌≡◌, refl, sym, ap, ◌∙◌}
use mathlib.Core.Logic.{inl, inr}
use mathlib.Core.List.{[], ◌∷◌, ◌++◌}
use native.Mathlib.Omega.{arith}
use gorb.Prelude.Tests.{ltb, Bool-cases, if◌then◌else◌}
use gorb.Prelude.Lists.{All, All-append}
use gorb.Prelude.Text.{Text}
use gorb.Prelude.Int.{ℤ, pos, negsuc}

-- The digits of a number below 10 ^ fuel.
unfoldable pub decimal_digits : ℕ → ℕ → Text
decimal_digits zero n = []
decimal_digits (suc fuel) n =
    let rest = decimal_digits fuel (n / 10) in
    if ltb n 10 then (48 + n) ∷ [] else rest ++ (48 + n % 10) ∷ []

-- An int64 has at most 19 digits.
unfoldable pub decimal : ℕ → Text
unfolding decimal_digits
decimal n = decimal_digits 20 n

unfoldable pub decimal_int : ℤ → Text
decimal_int (pos n) = decimal n
decimal_int (negsuc n) = b'-' ∷ decimal (suc n)

-- The number that digits stand for, after one that has been read.
read : ℕ → Text → ℕ
read acc [] = acc
read acc (c ∷ s) = read (acc * 10 + (c - 48)) s

read-append : (acc : ℕ) (s : Text) (c : ℕ) → read acc (s ++ c ∷ []) ≡ read acc s * 10 + (c - 48)
unfolding read
read-append acc [] c = refl
read-append acc (d ∷ s) c = read-append (acc * 10 + (d - 48)) s c

read-decimal_digits : (fuel n : ℕ) → n < 10 ^ fuel → read 0 (decimal_digits fuel n) ≡ n
unfolding decimal_digits read
read-decimal_digits zero n h = omega arith
read-decimal_digits (suc fuel) n h = ground (
  arith,
  read-decimal_digits fuel (n / 10),
  read-append 0 (decimal_digits fuel (n / 10)) (48 + n % 10),
)

-- Different numbers have different digits.
pub decimal_injective : (a b : ℕ) → a < 10 ^ 20 → b < 10 ^ 20 → decimal a ≡ decimal b → a ≡ b
unfolding decimal
decimal_injective a b ha hb h =
    sym (read-decimal_digits 20 a ha) ∙ ap (read 0) h ∙ read-decimal_digits 20 b hb

abbrev IsDigitCode : ℕ → Type 0
IsDigitCode c = (48 ≤ c) × (c < 58)

decimal_digits-digits : (fuel n : ℕ) → All IsDigitCode (decimal_digits fuel n)
unfolding decimal_digits
decimal_digits-digits zero n = tt
decimal_digits-digits (suc fuel) n = elim (Bool-cases (ltb n 10)) [
  | inl e ↦ rw e ((omega arith, ground arith), tt)
  | inr e ↦ rw e (
      All-append IsDigitCode (decimal_digits fuel (n / 10)) _ ((omega arith, omega arith), tt)
        (decimal_digits-digits fuel (n / 10)))
]

All-digits :
    (P : ℕ → Type 0) (s : Text) → ((c : ℕ) → 48 ≤ c → c < 58 → P c) → All IsDigitCode s → All P s
All-digits P [] h d = tt
All-digits P (c ∷ s) h (d, ds) = (h c d.0 d.1, All-digits P s h ds)

-- What holds of all digits holds of the characters of a number.
pub decimal-All : (P : ℕ → Type 0) (n : ℕ) → ((c : ℕ) → 48 ≤ c → c < 58 → P c) → All P (decimal n)
unfolding decimal
decimal-All P n h = All-digits P _ h (decimal_digits-digits 20 n)
