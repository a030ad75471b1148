-- ===== src/Orm/Time.antt =====
-- pkg/orm/time.go: a time as JSON and the database read and write it. Package time, strconv.Atoi and
-- encoding/json are the record `TimeLib`. Texts are ASCII: a byte is a character.
pub mod RoundTrip
pub mod Layout
pub mod DateTime
mod Examples
use goddd.Common.Int.{pos, leb_ℤ, ℤ}
use goddd.Common.Text.{same, codes, Bytes}
use mathlib.Core.Option
use goddd.Common.{
  drop, get_elem?, length, leb, ◌++◌, [], if◌then◌else◌, ◌||◌, ◌==◌, Option, Bool, ◌∷◌, some, none,
  true, ℕ,
}

pub record TimeLib (T : Type 0) : Type 0 where
  -- `time.Time{}`, `IsZero`, `Year`
  pub zero_time : T
  pub is_zero : T → Bool
  pub year : T → ℤ
  pub unix : ℤ → T
  pub unix_milli : ℤ → T
  pub atoi : Bytes → Option ℤ
  -- `ParseInLocation(time.DateTime, s, time.Local)`, `time.Parse(layout, s)`, `Format(time.DateTime)`
  pub parse_local : Bytes → Option T
  pub parse : Bytes → Bytes → Option T
  pub format : T → Bytes
  -- `json.Unmarshal` into a time: the time afterwards, and whether there was no error.
  pub decode : Bytes → T → T × Bool

abbrev pub quote : ℕ
quote = 34

-- `strings.Trim` of quotes.
pub trim_left : Bytes → Bytes
trim_left [] = []
trim_left (c ∷ s) = if c == quote then trim_left s else c ∷ s

abbrev pub cons_unless : Bool → ℕ → Bytes → Bytes
cons_unless drops c [] = if drops then [] else c ∷ []
cons_unless drops c (d ∷ s) = c ∷ d ∷ s

pub trim_right : Bytes → Bytes
trim_right [] = []
trim_right (c ∷ s) = cons_unless (c == quote) c (trim_right s)

pub trim : Bytes → Bytes
unfolding trim_left trim_right
trim s = trim_left (trim_right s)

-- A character that both of two places have, as `fmt.Sprintf("2006%c01%c02", value[4], value[7])`
-- asks; `none` is the panic of an index out of range.
pub date_layout : Option ℕ → Option ℕ → Option Bytes
date_layout (some c) (some d) = some (codes "2006" ++ (c ∷ (codes "01" ++ (d ∷ codes "02"))))
date_layout _ _ = none

-- What stands for the fraction and the zone.
pub rear : Bytes → Bytes
rear [] = []
rear (c ∷ s) =
    if c == 46 then 46 ∷ rear s else if c == 43 || c == 45 then codes "-07:00" else 57 ∷ rear s

pub time_layout : Bytes → Bytes
unfolding rear
time_layout value = if leb 19 (length value) then codes " 15:04:05" ++ rear (drop 19 value) else []

-- `ParseTimeToLayout`
pub parse_time_to_layout : Bytes → Option Bytes
unfolding date_layout time_layout
parse_time_to_layout value =
    if leb 7 (length value)
    then Option.map (λ date. date ++ time_layout value)
        (date_layout (get_elem? value 4) (get_elem? value 7))
    else some (time_layout value)

-- What a driver may give.
pub data Input (T : Type 0) : Type 0 where
  a_time : T → Input T
  a_string : Bytes → Input T
  other_input : Input T

pub data Scanned (T : Type 0) : Type 0 where
  scanned : T → Scanned T
  failed : Scanned T
  panicked : Scanned T

module _ {T : Type 0} (lib : TimeLib T) where
  pub from_number : Bytes → ℕ → ℤ → T → T × Bool
  from_number b n v old =
      if n == 1
      then (lib.zero_time, true)
      else if n == 10
      then (lib.unix v, true)
      else if n == 13
      then (lib.unix_milli v, true)
      else lib.decode b old

  pub from_text : Bytes → Bytes → T → T × Bool
  from_text b s old = elim (lib.parse_local s) [ some d ↦ (d, true) | none ↦ lib.decode b old ]

  -- `UnmarshalJSON`
  pub unmarshal_json : Bytes → T → T × Bool
  unfolding from_number from_text trim
  unmarshal_json b old =
      let s = trim b in
      if same s []
      then (lib.zero_time, true)
      else elim (lib.atoi s) [ some v ↦ from_number b (length s) v old | none ↦ from_text b s old ]

  pub is_unset : T → Bool
  is_unset t = lib.is_zero t || leb_ℤ (lib.year t) (pos 1)

  pub marshal_json : T → Bytes
  unfolding is_unset
  marshal_json t = if is_unset t then quote ∷ quote ∷ [] else quote ∷ (lib.format t ++ (quote ∷ []))

  -- `Value`, where `none` is nil.
  pub value : T → Option T
  unfolding is_unset
  value t = if is_unset t then none else some t

  pub scan_string : Bytes → Option Bytes → Scanned T
  scan_string s none = panicked
  scan_string s (some layout) = elim (lib.parse layout s) [ none ↦ failed | some d ↦ scanned d ]

  pub scan : Input T → Scanned T
  unfolding scan_string
  scan (a_time t) = scanned t
  scan (a_string s) = scan_string s (parse_time_to_layout s)
  scan other_input = failed
