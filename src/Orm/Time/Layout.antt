-- ===== src/Orm/Time/Layout.antt =====
-- The layouts that are made of texts from the database.
use goddd.Common.Text.{codes, Bytes}
use goddd.Orm.Time.{time_layout, date_layout, rear, parse_time_to_layout}
use goddd.Common.{
  length-drop, ◌++◌, ◌⊎◌, zero, ◌<◌, leb, get_elem?_of_lt, ◌-◌, arith, true, suc, drop, ap,
  Bool-cases, ◌↔◌, [], ◌||◌, ◌≡◌, get_elem?, ◌==◌, ◌≤◌, length, ◌∷◌, inr, inl, some, none, false,
  refl, ℕ,
}

get_elem?_of_length-le : (xs : Bytes) (i : ℕ) → length xs ≤ i → get_elem? xs i ≡ none
get_elem?_of_length-le [] i h = refl
get_elem?_of_length-le (x ∷ xs) zero h = ground arith
get_elem?_of_length-le (x ∷ xs) (suc i) h = get_elem?_of_length-le xs i (ground arith)

-- A text without a sign among its characters.
pub HasNoSign : Bytes → Type 0
HasNoSign [] = Unit
HasNoSign (c ∷ s) = ((c == 43 || c == 45) ≡ false) × HasNoSign s

length-rear : (s : Bytes) → HasNoSign s → length (rear s) ≡ length s
unfolding rear HasNoSign
length-rear [] h = refl
length-rear (c ∷ s) h = elim (Bool-cases (c == 46)) [
  | inl b ↦ rw b (ap suc (length-rear s h.1))
  | inr b ↦ rw b (rw h.0 (ap suc (length-rear s h.1)))
]

compare_cases : (m n : ℕ) → (m < n) ⊎ ((m ≡ n) ⊎ (n < m))
compare_cases m n = ground arith

abbrev layout_of : ℕ → ℕ → Bytes → Bytes
layout_of c d rest = (codes "2006" ++ (c ∷ (codes "01" ++ (d ∷ codes "02")))) ++ rest

of_short :
    (value : Bytes) → length value < 7 → parse_time_to_layout value ≡ some (time_layout value)
unfolding parse_time_to_layout
of_short value h = rw (short (length value) h) refl
  where
    short : (n : ℕ) → n < 7 → leb 7 n ≡ false
    short n h = ground arith

long_enough : (n : ℕ) → 7 ≤ n → leb 7 n ≡ true
long_enough n h = ground arith

of_seven : (value : Bytes) → length value ≡ 7 → parse_time_to_layout value ≡ none
unfolding parse_time_to_layout date_layout
of_seven value h =
    let there = get_elem?_of_lt value 4 (ground arith) in
    rw (long_enough (length value) (ground arith))
      (rw there.1 (rw (get_elem?_of_length-le value 7 (ground arith)) refl))

of_long :
    (value : Bytes)
    → 7 < length value
    → (c d : ℕ) × (parse_time_to_layout value ≡ some (layout_of c d (time_layout value)))
unfolding parse_time_to_layout date_layout
of_long value h =
    let one = get_elem?_of_lt value 4 (ground arith) in
    let two = get_elem?_of_lt value 7 h in
    (one.0, two.0, rw (long_enough (length value) (ground arith)) (rw one.1 (rw two.1 refl)))

length-time_layout :
    (value : Bytes)
    → 19 ≤ length value
    → HasNoSign (drop 19 value)
    → length (time_layout value) ≡ length value - 10
unfolding time_layout
length-time_layout value h n =
    let tail = length-rear (drop 19 value) n in
    let rest = length-drop 19 value in
    elim (Bool-cases (leb 19 (length value))) [ inl b ↦ rw b (ground arith) | inr b ↦ ground arith ]

-- ParseTimeToLayout panics on the texts of seven characters and on no others.
pub parse_time_to_layout-none :
    (value : Bytes) → (parse_time_to_layout value ≡ none) ↔ (length value ≡ 7)
parse_time_to_layout-none value = elim (compare_cases (length value) 7) [
  | inl l ↦ ((λ p. ground (arith, p, of_short value l)), λ e. ground arith)
  | inr (inl e) ↦ ((λ p. e), λ p. of_seven value e)
  | inr (inr g) ↦
      (let long = of_long value g in ((λ p. ground (arith, p, long.2)), λ e. ground arith))
]

-- Of a text of at least 19 characters with no sign after these, the layout is as long as the text.
pub length-parse_time_to_layout :
    (value : Bytes)
    → 19 ≤ length value
    → HasNoSign (drop 19 value)
    → (layout : Bytes) × (parse_time_to_layout value ≡ some layout) × (length layout ≡ length value)
length-parse_time_to_layout value h n =
    let (c, d, p) = of_long value (ground arith) in
    let time = length-time_layout value h n in (layout_of c d (time_layout value), p, ground arith)
