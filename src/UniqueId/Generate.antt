-- ===== src/UniqueId/Generate.antt =====
-- The random text has the length that was asked for, and only letters of the set.
use goddd.Common.{
  ℕ, zero, suc, ◌+◌, ◌%◌, ◌<◌, ◌≡◌, refl, ap, [], ◌∷◌, some, arith, length, get_elem?,
  get_elem?_of_lt,
}
use goddd.Common.Text.{Bytes}
use goddd.UniqueId.{generate_random_string}

-- Each letter stands at some place of the set.
abbrev pub AllFrom : Bytes → Bytes → Type 0
AllFrom letters [] = Unit
AllFrom letters (c ∷ w) = ((i : ℕ) × (get_elem? letters i ≡ some c)) × AllFrom letters w

-- With letters to choose from, a text is made, of the length asked for and of those letters.
pub generate_lem :
    (noise : ℕ → ℕ) (letters : Bytes) (n at : ℕ)
    → 0 < length letters
    → (w : Bytes) × (at' : ℕ) × (generate_random_string noise letters n at ≡ some (w, at'))
      × (length w ≡ n)
      × AllFrom letters w
unfolding generate_random_string
generate_lem noise letters zero at h = ([], at, refl, refl, tt)
generate_lem noise letters (suc n) at h =
    let i = noise at % length letters in
    let (c, e) = get_elem?_of_lt letters i (omega arith) in
    let (w, at', made, len, from) = generate_lem noise letters n (at + 1) h in
    (
      c ∷ w,
      at',
      rw (e, generate_random_string) (rw (made, generate_random_string)),
      ap suc len,
      ((i, e), from),
    )
