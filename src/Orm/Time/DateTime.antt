-- ===== src/Orm/Time/DateTime.antt =====
-- What pkg/orm/time.go relies on in package time and strconv: the text `time.DateTime` of a time, which is
-- "2006-01-02 15:04:05".
use mathlib.Core.Option
use goddd.Common.Int.{pos}
use goddd.Common.Text.{Bytes}
use goddd.Orm.Time.{TimeLib, quote}
use goddd.Common.{
  drop, ◌≡◌, refl, [], ◌∷◌, ◌++◌, Bool, true, false, Option, none, some, ℕ, ◌+◌, ◌/◌, ◌%◌, ◌==◌,
  ◌||◌, ◌&&◌, not, ltb, ◌<◌, ◌≤◌, if◌then◌else◌, arith,
}

-- A date of the calendar and a time of day, as a clock on the wall shows them.
pub record Civil : Type 0 where
  pub year : ℕ
  pub month : ℕ
  pub day : ℕ
  pub hour : ℕ
  pub minute : ℕ
  pub second : ℕ

pub is_leap : ℕ → Bool
is_leap y = (y % 4 == 0) && (not (y % 100 == 0) || (y % 400 == 0))

unfoldable pub days_in : ℕ → ℕ → ℕ
unfolding is_leap
days_in y m =
    if m == 2
    then (if is_leap y then 29 else 28)
    else if m == 4 || m == 6 || m == 9 || m == 11
    then 30
    else 31

-- The four digits of the year are enough.
abbrev pub IsCivil : Civil → Type 0
IsCivil c =
    (c.year < 10000)
    × (1 ≤ c.month)
    × (c.month ≤ 12)
    × (1 ≤ c.day)
    × (c.day ≤ days_in c.year c.month)
    × (c.hour < 24)
    × (c.minute < 60)
    × (c.second < 60)

-- The last decimal digit.
unfoldable pub digit : ℕ → ℕ
digit n = 48 + n % 10

abbrev pub two_digits : ℕ → Bytes → Bytes
two_digits n s = digit (n / 10) ∷ digit n ∷ s

-- "2006-01-02 15:04:05"
abbrev pub date_time : Civil → Bytes
date_time c = two_digits (c.year / 100) (
    two_digits c.year (
      45
      ∷ two_digits c.month (
          45
          ∷ two_digits c.day
              (32 ∷ two_digits c.hour (58 ∷ two_digits c.minute (58 ∷ two_digits c.second []))))))

abbrev pub is_digit : ℕ → Bool
is_digit c = not (ltb c 48) && ltb c 58

unfoldable pub has_other : Bytes → Bool
has_other [] = false
has_other (c ∷ s) = not (is_digit c) || has_other s

-- What package time and strconv say of a library. `civil` is what the clock of a time shows, `local` is the
-- time at which the local clock shows that. A time up to the year 9999 is written by its digits; the
-- text of a date that exists parses; and `Atoi` refuses a text with a byte, other than the first,
-- that is no digit.
pub record TimeLaws {T : Type 0} (lib : TimeLib T) : Type 0 where
  pub civil : T → Civil
  pub local : Civil → T
  pub civil-IsCivil : (t : T) → (civil t).year < 10000 → IsCivil (civil t)
  pub format_lem :
      (t : T)
      → lib.year t ≡ pos (civil t).year
      → (civil t).year < 10000
      → lib.format t ≡ date_time (civil t)
  pub parse_lem : (c : Civil) → IsCivil c → lib.parse_local (date_time c) ≡ some (local c)
  pub atoi_lem : (c : ℕ) (s : Bytes) → has_other s ≡ true → lib.atoi (c ∷ s) ≡ none

-- A byte that stands for itself in a JSON string.
abbrev pub is_plain : ℕ → Bool
is_plain c = not (c == quote || c == 92 || ltb c 32)

abbrev pub plain_at_end : Bytes → Option Bytes
plain_at_end [] = some []
plain_at_end (c ∷ s) = none

-- The text of a JSON string without escapes: `none` if it is not one.
unfoldable pub json_rest : Bytes → Option Bytes
json_rest [] = none
json_rest (c ∷ s) =
    let rest = json_rest s in
    if c == quote then plain_at_end s else if is_plain c then Option.map (λ r. c ∷ r) rest else none

unfoldable pub json_string : Bytes → Option Bytes
unfolding json_rest
json_string [] = none
json_string (c ∷ s) = if c == quote then json_rest s else none

unfoldable pub AllPlain : Bytes → Type 0
AllPlain [] = Unit
AllPlain (c ∷ s) = (is_plain c ≡ true) × AllPlain s

json_rest_lem : (s : Bytes) → AllPlain s → json_rest (s ++ (quote ∷ [])) ≡ some s
unfolding json_rest AllPlain
json_rest_lem [] h = refl
json_rest_lem (c ∷ s) h = ground (arith, h.0, json_rest_lem s h.1)

-- A plain text in quotes is a JSON string.
pub json_string_lem : (s : Bytes) → AllPlain s → json_string (quote ∷ (s ++ (quote ∷ []))) ≡ some s
unfolding json_string
json_string_lem s h = json_rest_lem s h

digit-is_plain : (n : ℕ) → is_plain (digit n) ≡ true
unfolding digit
digit-is_plain n = ground arith

two_digits-AllPlain : (n : ℕ) (s : Bytes) → AllPlain s → AllPlain (two_digits n s)
unfolding AllPlain
two_digits-AllPlain n s h = (digit-is_plain (n / 10), (digit-is_plain n, h))

plain_end : AllPlain []
unfolding AllPlain
plain_end = tt

two_digits_then-AllPlain :
    (n sep : ℕ) (s : Bytes) → is_plain sep ≡ true → AllPlain s → AllPlain (two_digits n (sep ∷ s))
unfolding AllPlain
two_digits_then-AllPlain n sep s p h = two_digits-AllPlain n (sep ∷ s) (p, h)

pub date_time-AllPlain : (c : Civil) → AllPlain (date_time c)
date_time-AllPlain c = two_digits-AllPlain (c.year / 100) _ (
    two_digits_then-AllPlain c.year 45 _ refl (
      two_digits_then-AllPlain c.month 45 _ refl (
        two_digits_then-AllPlain c.day 32 _ refl (
          two_digits_then-AllPlain c.hour 58 _ refl (
            two_digits_then-AllPlain c.minute 58 _ refl
              (two_digits-AllPlain c.second [] plain_end))))))

-- The first byte is no quote, and after it stands a byte that is no digit.
pub date_time-has_other : (c : Civil) → has_other (drop 1 (date_time c)) ≡ true
unfolding has_other
date_time-has_other c = ground arith
