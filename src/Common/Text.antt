-- ===== src/Common/Text.antt =====
-- Text that the program walks: lists of bytes, with the functions of Go's `strings` that it calls.
use Prim.Native.Char.{code}
use Prim.Native.Nat.{ℕ, ◌+◌, ◌/◌, ◌%◌}
use Prim.Native.String.{String}
use mathlib.Core.Path.{◌≡◌, refl, sym, ap, ◌∙◌}
use mathlib.Core.Logic.{◌↔◌, inl, inr}
use mathlib.Core.Bool.{Bool, true, false, false≢true, ◌&&◌, ◌||◌, not}
use mathlib.Core.List.{List, [], ◌∷◌, ◌++◌}
use native.Mathlib.Omega.{arith}
use goddd.Common.Bools.{Bool-cases, ◌==◌, if◌then◌else◌, ltb}

abbrev pub Bytes : Type 0
Bytes = List ℕ

-- The code points of a text, which are its bytes if it is ASCII.
abbrev pub codes : String → Bytes
codes String.[] = []
codes (String.◌∷◌ c s) = code c ∷ codes s

unfoldable pub same : Bytes → Bytes → Bool
same [] [] = true
same (x ∷ xs) (y ∷ ys) = x == y && same xs ys
same _ _ = false

pub same_iff : (xs ys : Bytes) → (same xs ys ≡ true) ↔ (xs ≡ ys)
unfolding same
same_iff [] [] = ((λ h. refl), λ h. refl)
same_iff [] (y ∷ ys) = ((λ h. cc), λ h. cc)
same_iff (x ∷ xs) [] = ((λ h. cc), λ h. cc)
same_iff (x ∷ xs) (y ∷ ys) =
    ((λ h. ground (arith, same_iff xs ys)), λ h. ground (arith, same_iff xs ys))

-- `slices.Contains`
unfoldable pub contains : List Bytes → Bytes → Bool
contains [] s = false
contains (x ∷ xs) s = same x s || contains xs s

unfoldable pub has_prefix : Bytes → Bytes → Bool
has_prefix s [] = true
has_prefix [] (p ∷ ps) = false
has_prefix (c ∷ s) (p ∷ ps) = c == p && has_prefix s ps

-- `strings.TrimPrefix`
unfoldable pub trim_prefix : Bytes → Bytes → Bytes
trim_prefix s p = if has_prefix s p then drop_prefix s p else s
  where
    drop_prefix : Bytes → Bytes → Bytes
    drop_prefix s [] = s
    drop_prefix [] (p ∷ ps) = []
    drop_prefix (c ∷ s) (p ∷ ps) = drop_prefix s ps

-- `strings.Split` by one byte: never empty.
abbrev pub cons_head : ℕ → List Bytes → List Bytes
cons_head c [] = (c ∷ []) ∷ []
cons_head c (w ∷ ws) = (c ∷ w) ∷ ws

unfoldable pub split : ℕ → Bytes → List Bytes
split sep [] = [] ∷ []
split sep (c ∷ s) = let rest = split sep s in if c == sep then [] ∷ rest else cons_head c rest

unfoldable pub join : ℕ → List Bytes → Bytes
join sep [] = []
join sep (w ∷ []) = w
join sep (w ∷ v ∷ ws) = w ++ (sep ∷ join sep (v ∷ ws))

-- The byte does not occur.
unfoldable pub lacks : ℕ → Bytes → Bool
lacks sep [] = true
lacks sep (c ∷ s) = not (c == sep) && lacks sep s

pub split_of_lacks : (sep : ℕ) (w : Bytes) → lacks sep w ≡ true → split sep w ≡ w ∷ []
unfolding split lacks
split_of_lacks sep [] h = refl
split_of_lacks sep (c ∷ w) h = ground (arith, split_of_lacks sep w)

pub split-append :
    (sep : ℕ) (w s : Bytes) → lacks sep w ≡ true → split sep (w ++ (sep ∷ s)) ≡ w ∷ split sep s
unfolding split lacks
split-append sep [] s h = ground arith
split-append sep (c ∷ w) s h = ground (arith, split-append sep w s)

abbrev pub AllLack : ℕ → List Bytes → Type 0
AllLack sep [] = Unit
AllLack sep (w ∷ ws) = (lacks sep w ≡ true) × AllLack sep ws

-- Splitting undoes joining, for words in which the separator does not occur.
pub split-join :
    (sep : ℕ) (w : Bytes) (ws : List Bytes)
    → AllLack sep (w ∷ ws)
    → split sep (join sep (w ∷ ws)) ≡ w ∷ ws
unfolding join
split-join sep w [] h = split_of_lacks sep w h.0
split-join sep w (v ∷ ws) h =
    rw (split-append sep w (join sep (v ∷ ws)) h.0) (ap (◌∷◌ w) (split-join sep v ws h.1))

abbrev pub decided : (xs ys : Bytes) (b : Bool) → same xs ys ≡ b → Dec (xs ≡ ys)
decided xs ys true e = yes ((same_iff xs ys).0 e)
decided xs ys false e = no (λ p. false≢true (sym e ∙ (same_iff xs ys).1 p))

unfoldable pub bytes_discrete : Discrete Bytes
bytes_discrete xs ys = decided xs ys (same xs ys) refl

-- `hex.EncodeToString`
unfoldable pub hex_digit : ℕ → ℕ
hex_digit d = if ltb d 10 then 48 + d else 87 + d

unfoldable pub hex : Bytes → Bytes
hex [] = []
hex (c ∷ s) = hex_digit (c / 16) ∷ hex_digit (c % 16) ∷ hex s

hex_digit_injective : (a b : ℕ) → hex_digit a ≡ hex_digit b → a ≡ b
unfolding hex_digit
hex_digit_injective a b h = ground arith

-- Different bytes are written differently.
pub hex_injective : (xs ys : Bytes) → hex xs ≡ hex ys → xs ≡ ys
unfolding hex
hex_injective [] [] h = refl
hex_injective [] (y ∷ ys) h = cc
hex_injective (x ∷ xs) [] h = cc
hex_injective (x ∷ xs) (y ∷ ys) h = ground (
  arith,
  hex_injective xs ys,
  hex_digit_injective (x / 16) (y / 16),
  hex_digit_injective (x % 16) (y % 16),
)

-- Splitting leaves at least one part.
pub split_nonempty :
    (sep : ℕ) (s : Bytes) → (w : Bytes) × (ws : List Bytes) × (split sep s ≡ w ∷ ws)
unfolding split
split_nonempty sep [] = ([], [], refl)
split_nonempty sep (c ∷ s) = elim (Bool-cases (c == sep)) [
  | inl e ↦ ([], split sep s, rw e refl)
  | inr e ↦ let (w, ws, parts) = split_nonempty sep s in (c ∷ w, ws, rw e (ap (cons_head c) parts))
]
