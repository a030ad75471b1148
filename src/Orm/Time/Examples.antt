-- ===== src/Orm/Time/Examples.antt =====
-- Times that are numbers, and some layouts.
use goddd.Common.Int.{pos_part, pos}
use goddd.Orm.Time.DateTime.{Civil, IsCivil, TimeLaws, date_time, digit, days_in}
use goddd.Common.Text.{codes, Bytes}
use goddd.Orm.Time.{marshal_json, pos, TimeLib, parse_time_to_layout}
use goddd.Common.{
  drop, ◌*◌, ◌<◌, ◌%◌, ◌-◌, arith, ◌/◌, ◌+◌, [], ◌==◌, ◌≡◌, Option, ◌∷◌, some, none, false, refl, ℕ,
}

-- A time is a second of a day: the 6th of May 2024.
abbrev day_of : ℕ → Civil
day_of n = record {
  year = 2024;
  month = 5;
  day = 6;
  hour = n / 3600 % 24;
  minute = n / 60 % 60;
  second = n % 60;
}

abbrev local : Civil → ℕ
local c = c.hour * 3600 + c.minute * 60 + c.second

-- The number that two digits stand for.
abbrev number : ℕ → ℕ → ℕ
number a b = (a - 48) * 10 + (b - 48)

-- The time of day in a text.
abbrev read_day : Bytes → Option ℕ
read_day (h ∷ i ∷ _ ∷ m ∷ n ∷ _ ∷ s ∷ t ∷ []) =
    some (number h i * 3600 + number m n * 60 + number s t)
read_day _ = none

abbrev a_lib : TimeLib ℕ
a_lib = record {
  zero_time = 0;
  is_zero = λ t. t == 0;
  year = λ t. pos 2024;
  unix = pos_part;
  unix_milli = λ v. pos_part v / 1000;
  atoi = λ s. none;
  parse_local = λ s. read_day (drop 11 s);
  parse = λ layout s. read_day (drop 11 s);
  format = λ t. date_time (day_of t);
  decode = λ b t. (t, false);
}

number-digit : (n : ℕ) → n < 100 → number (digit (n / 10)) (digit n) ≡ n
unfolding digit
number-digit n h = ground arith

day_of-IsCivil : (n : ℕ) → IsCivil (day_of n)
unfolding days_in
day_of-IsCivil n = (
  ground arith,
  ground arith,
  ground arith,
  ground arith,
  ground arith,
  ground arith,
  ground arith,
  ground arith,
)

read_day-date_time : (c : Civil) → IsCivil c → read_day (drop 11 (date_time c)) ≡ some (local c)
read_day-date_time c (_, _, _, _, _, h, m, s) = rw (number-digit c.hour (ground (arith, h))) (
    rw (number-digit c.minute (ground (arith, m)))
      (rw (number-digit c.second (ground (arith, s))) refl))

abbrev a_lib_laws : TimeLaws a_lib
a_lib_laws = record {
  civil = day_of;
  local = local;
  civil-IsCivil = λ t h. day_of-IsCivil t;
  format_lem = λ t y h. refl;
  parse_lem = read_day-date_time;
  atoi_lem = λ c s h. refl;
}

writes_time : marshal_json a_lib 3_723 ≡ codes "\"2024-05-06 01:02:03\""
unfolding marshal_json digit
writes_time = refl

stamp : Bytes
stamp = codes "2024-05-06 07:08:09.123+08:00"

stamp_layout : parse_time_to_layout stamp ≡ some (codes "2006-01-02 15:04:05.999-07:00")
unfolding parse_time_to_layout stamp
stamp_layout = refl

month_panics : parse_time_to_layout (codes "2024-05") ≡ none
unfolding parse_time_to_layout
month_panics = refl
