-- ===== src/Util/Interval/Format.antt =====
-- Which duration a well-formed interval stands for.
use gorb.Prelude.{
  Text_eq, ℕ, ◌*◌, ◌^◌, ◌≤◌, ◌<◌, ◌≡◌, ◌≢◌, refl, true, false, [], ◌∷◌, ◌++◌, some, arith, All,
  All-append, ap, ◌∙◌, sym,
}
use gorb.Prelude.Text.{Text, is_empty, to_lower}
use gorb.Prelude.Int.{ℤ, pos, mul64, mul64-pos, mul64_overflow}
use gorb.Prelude.Map.{lookup}
use gorb.Prelude.Exec.{ok}
use gorb.Util.Interval.{
  intervals, is_space, is_digit, trim_left, trim_right, trim_space, span_digits, digits_value,
  parse_int32, parse_unsigned, parse_signed, parse_interval,
}

abbrev pub Solid : Text → Type 0
Solid = All (λ c. is_space c ≡ false)

trim_left-Solid : (s : Text) → Solid s → trim_left s ≡ s
unfolding trim_left
trim_left-Solid [] h = refl
trim_left-Solid (c ∷ s) (h, hs) = ground arith

trim_right-Solid : (s : Text) → Solid s → trim_right s ≡ s
unfolding trim_right
trim_right-Solid [] h = refl
trim_right-Solid (c ∷ s) (h, hs) = ground (arith, trim_right-Solid s hs)

digit-Solid : (c : ℕ) → is_digit c ≡ true → is_space c ≡ false
unfolding is_digit is_space
digit-Solid c h = ground arith

digits-Solid : (ds : Text) → All (λ c. is_digit c ≡ true) ds → Solid ds
digits-Solid [] h = tt
digits-Solid (c ∷ ds) (h, hs) = (digit-Solid c h, digits-Solid ds hs)

span_digits-append :
    (ds u : Text)
    → All (λ c. is_digit c ≡ true) ds
    → span_digits u ≡ ([], u)
    → span_digits (ds ++ u) ≡ (ds, u)
unfolding span_digits
span_digits-append [] u h e = e
span_digits-append (c ∷ ds) u (h, hs) e = rw (span_digits-append ds u hs e, h)

parse_signed-digit :
    (c : ℕ) (s : Text) → is_digit c ≡ true → parse_signed (c ∷ s) ≡ parse_unsigned false (c ∷ s)
unfolding parse_signed is_digit
parse_signed-digit c s h = ground arith

parse_unsigned-format :
    (ds u : Text) (d : ℕ)
    → is_empty ds ≡ false
    → All (λ c. is_digit c ≡ true) ds
    → span_digits u ≡ ([], u)
    → lookup (to_lower u) intervals ≡ some d
    → parse_unsigned false (ds ++ u) ≡ ok (mul64 (parse_int32 false ds) d)
unfolding parse_unsigned
parse_unsigned-format ds u d h digits e known = ground (arith, span_digits-append ds u digits e)

parse_int32-small :
    (ds : Text) → digits_value ds < 2 ^ 31 → parse_int32 false ds ≡ pos (digits_value ds)
unfolding parse_int32
parse_int32-small ds h = ground arith

parse_interval-digits :
    (ds u : Text) (d : ℕ)
    → is_empty ds ≡ false
    → All (λ c. is_digit c ≡ true) ds
    → span_digits u ≡ ([], u)
    → Solid u
    → lookup (to_lower u) intervals ≡ some d
    → parse_interval (ds ++ u) ≡ ok (mul64 (parse_int32 false ds) d)
unfolding parse_interval trim_space
parse_interval-digits [] u d h digits e solid known = cc
parse_interval-digits (c ∷ ds) u d h (digit, digits) e solid known =
    let all_solid : Solid (c ∷ ds ++ u) =
      All-append (λ c. is_space c ≡ false) (c ∷ ds) u solid
        (digits-Solid (c ∷ ds) (digit, digits)) in
    ap parse_signed (
      ap trim_right (trim_left-Solid (c ∷ ds ++ u) all_solid)
      ∙ trim_right-Solid (c ∷ ds ++ u) all_solid)
    ∙ parse_signed-digit c (ds ++ u) digit
    ∙ parse_unsigned-format (c ∷ ds) u d h (digit, digits) e known

-- A number below 2^31 followed by a unit, in any case, gives the product of both if that fits an
-- int64, and something else if it does not.
pub parse_interval-format :
    (ds u : Text) (d : ℕ)
    → is_empty ds ≡ false
    → All (λ c. is_digit c ≡ true) ds
    → digits_value ds < 2 ^ 31
    → span_digits u ≡ ([], u)
    → Solid u
    → lookup (to_lower u) intervals ≡ some d
    → (digits_value ds * d < 2 ^ 63 → parse_interval (ds ++ u) ≡ ok (pos (digits_value ds * d)))
      × (2 ^ 63 ≤ digits_value ds * d → parse_interval (ds ++ u) ≢ ok (pos (digits_value ds * d)))
parse_interval-format ds u d h digits small e solid known =
    let parsed : parse_interval (ds ++ u) ≡ ok (mul64 (pos (digits_value ds)) d) =
      parse_interval-digits ds u d h digits e solid known
      ∙ ap (λ z. ok (mul64 z d)) (parse_int32-small ds small) in
    (
      λ fits. parsed ∙ ap ok (mul64-pos (digits_value ds) d fits),
      λ over same.
          ok_ne (mul64 (pos (digits_value ds)) d) (digits_value ds * d)
            (mul64_overflow (digits_value ds) d over) (sym parsed ∙ same),
    )
  where
    ok_ne : (z : ℤ) (n : ℕ) → z ≢ pos n → ok z ≢ ok (pos n)
    ok_ne z n ne e = ne cc
