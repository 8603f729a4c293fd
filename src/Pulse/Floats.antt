-- ===== src/Pulse/Floats.antt =====
-- The float64 operations that the health statistics use, as an interface: the program computes with
-- `+`, `-`, `*`, `/`, the conversion of integers and the conversion to uint32.
use gorb.Prelude.{ℕ, ◌+◌, ◌<◌, ◌^◌, ◌≡◌}

pub record Floats (A : Type 0) : Type 0 where
  pub of_ℕ : ℕ → A
  pub add : A → A → A
  pub sub : A → A → A
  pub mul : A → A → A
  pub div : A → A → A
  pub to_uint32 : A → ℕ

-- What IEEE 754 says of them: integers below 2^53 are exact and are added exactly, 0 divided by one
-- of them is 0, and 0 and 1 are neutral for `-` and `*`.
pub record IsIeee {A : Type 0} (f : Floats A) : Type 0 where
  pub add_exact : (a b : ℕ) → a + b < 2 ^ 53 → f.add (f.of_ℕ a) (f.of_ℕ b) ≡ f.of_ℕ (a + b)
  pub zero_div : (n : ℕ) → 0 < n → n < 2 ^ 53 → f.div (f.of_ℕ 0) (f.of_ℕ n) ≡ f.of_ℕ 0
  pub sub_zero : (a : A) → f.sub a (f.of_ℕ 0) ≡ a
  pub mul_one : (a : A) → f.mul a (f.of_ℕ 1) ≡ a
  pub to_of : (n : ℕ) → n < 2 ^ 32 → f.to_uint32 (f.of_ℕ n) ≡ n
