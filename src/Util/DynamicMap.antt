-- ===== src/Util/DynamicMap.antt =====
-- util/map.go: options that a client sends as JSON, read with a default whose type is wanted.
-- An assertion `x.(T)` on a value of another type panics.
use gorb.Prelude.{
  Text_eq, ◌-◌, ◌^◌, ◌≡◌, refl, Bool, true, false, Option, none, some, arith, ltb, if◌then◌else◌,
  all,
}
use gorb.Prelude.Text.{Text}
use gorb.Prelude.Int.{ℤ, pos}
use gorb.Prelude.Map.{Map, lookup}
use gorb.Prelude.Exec.{Outcome, ok, err, panic}
use gorb.Util.Interval.{is_digit, digits_value}

-- A value of type `interface{}`. A JSON number is a float64; `composite` is a list or an object.
-- Of a float only its integral part is kept: the program never computes with one.
pub data Value : Type 0 where
  string : Text → Value
  int : ℤ → Value
  float64 : ℤ → Value
  boolean : Bool → Value
  composite : Value
  null : Value

pub data Kind : Type 0 where
  string_kind int_kind float64_kind bool_kind composite_kind : Kind

-- `reflect.TypeOf`, which is nil for nil
abbrev pub type_of : Value → Option Kind
type_of (string s) = some string_kind
type_of (int n) = some int_kind
type_of (float64 n) = some float64_kind
type_of (boolean b) = some bool_kind
type_of composite = some composite_kind
type_of null = none

-- `vt.ConvertibleTo(dt)`
abbrev pub convertible_to : Kind → Kind → Bool
convertible_to string_kind string_kind = true
convertible_to int_kind string_kind = true
convertible_to int_kind int_kind = true
convertible_to int_kind float64_kind = true
convertible_to float64_kind int_kind = true
convertible_to float64_kind float64_kind = true
convertible_to bool_kind bool_kind = true
convertible_to composite_kind composite_kind = true
convertible_to _ _ = false

-- `isInt`
unfoldable pub is_int : Text → Bool
is_int s = all is_digit s

-- `strconv.Atoi` of a text of digits, its error dropped: the empty text gives 0, and what does not
-- fit the largest int.
unfoldable pub atoi : Text → ℤ
unfolding digits_value
atoi s = let n = digits_value s in pos (if ltb n (2 ^ 63) then n else 2 ^ 63 - 1)

convert_string : Value → Value → Outcome Value
unfolding is_int atoi
convert_string (string s) d = ok (if is_int s then int (atoi s) else d)
convert_string _ d = panic

-- A method of the nil `reflect.Type`, or with a nil argument, panics.
unfoldable pub get_typed : Value → Value → Option Kind → Option Kind → Outcome Value
unfolding convert_string
get_typed v d (some vt) (some dt) = if convertible_to vt dt then ok v else convert_string v d
get_typed v d _ _ = panic

abbrev pub DynamicMap : Type 0
DynamicMap = Map Text Value

-- `DynamicMap.Get`
unfoldable pub get : DynamicMap → Text → Value → Outcome Value
unfolding lookup get_typed
get options key d = elim (lookup key options) [
  | none ↦ ok d
  | some v ↦ get_typed v d (type_of v) (type_of d)
]

-- `x.(string)` and `x.(int)`
unfoldable pub as_string : Outcome Value → Outcome Text
as_string (ok (string s)) = ok s
as_string (err e) = err e
as_string _ = panic

unfoldable pub as_int : Outcome Value → Outcome ℤ
as_int (ok (int n)) = ok n
as_int (err e) = err e
as_int _ = panic

-- What `opts.Get(key, d).(int)` gives for each kind of value under the key.
abbrev pub IntOption : ℤ → Option Value → Outcome ℤ → Type 0
IntOption d none r = r ≡ ok d
IntOption d (some (int n)) r = r ≡ ok n
IntOption d (some (string s)) r = r ≡ (if is_int s then ok (atoi s) else ok d)
IntOption d (some _) r = r ≡ panic

-- Reading an option of type int gives the default if it is missing, an int as it is, the number that
-- a text of digits spells, the default for another text, and panics on a value of any other type.
pub get-as_int :
    (options : DynamicMap) (key : Text) (d : ℤ)
    → IntOption d (lookup key options) (as_int (get options key (int d)))
unfolding get as_int
get-as_int options key d = go (lookup key options)
  where
    go :
        (o : Option Value)
        → IntOption d o (
            as_int (elim o [
              | none ↦ ok (int d)
              | some v ↦ get_typed v (int d) (type_of v) (some int_kind)
            ]))
    go none = refl
    go (some (string s)) = ground arith
    go (some (int n)) = refl
    go (some (float64 n)) = refl
    go (some (boolean b)) = refl
    go (some composite) = refl
    go (some null) = refl
