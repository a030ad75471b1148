-- ===== src/Version/Order.antt =====
-- The comparison of version texts agrees with the order of their numbers.
use goddd.Common.{
  ◌≢◌, ℕ, ◌+◌, ◌*◌, ◌/◌, ◌%◌, ◌<◌, ◌≡◌, refl, ◌∙◌, Bool, true, false, List, [], ◌∷◌, ◌++◌, arith,
  length, ltb, if◌then◌else◌, map,
}
use goddd.Common.Text.{Bytes, join, trim_prefix, has_prefix, lacks, AllLack, split-join}
use goddd.Version.{
  cut_suffix, pad3, concat_items, version_to_str, compare_version_func, greater, Core,
  is_auto_migrate, record_version,
}

-- A number below 1000 in decimal.
pub decimal : ℕ → Bytes
decimal n =
    if ltb n 10
    then (n + 48) ∷ []
    else if ltb n 100
    then (n / 10 + 48) ∷ (n % 10 + 48) ∷ []
    else (n / 100 + 48) ∷ (n / 10 % 10 + 48) ∷ (n % 10 + 48) ∷ []

-- A version text with the given numbers: "v1.2.3".
pub render : List ℕ → Bytes
render ns = b'v' ∷ join b'.' (map decimal ns)

abbrev pub Small : List ℕ → Type 0
Small [] = Unit
Small (n ∷ ns) = (n < 1000) × Small ns

-- The order of two lists of numbers, the first number first.
pub newer : List ℕ → List ℕ → Bool
newer [] ms = false
newer (n ∷ ns) [] = true
newer (n ∷ ns) (m ∷ ms) =
    let rest = newer ns ms in if ltb m n then true else if ltb n m then false else rest

abbrev three : ℕ → Bytes
three n = (n / 100 + 48) ∷ (n / 10 % 10 + 48) ∷ (n % 10 + 48) ∷ []

cut_suffix-decimal : (n : ℕ) → n < 1000 → cut_suffix (decimal n) ≡ decimal n
unfolding cut_suffix decimal
cut_suffix-decimal n h = ground arith

pad3-decimal : (n : ℕ) → n < 1000 → pad3 (decimal n) ≡ three n
unfolding pad3 decimal
pad3-decimal n h = ground arith

lacks-decimal : (n : ℕ) → n < 1000 → lacks b'.' (decimal n) ≡ true
unfolding decimal lacks
lacks-decimal n h = ground arith

lacks-decimals : (ns : List ℕ) → Small ns → AllLack b'.' (map decimal ns)
lacks-decimals [] h = tt
lacks-decimals (n ∷ ns) h = (lacks-decimal n h.0, lacks-decimals ns h.1)

-- Three digits for each number.
abbrev digits_of : List ℕ → Bytes
digits_of [] = []
digits_of (n ∷ ns) = three n ++ digits_of ns

concat_items-decimals : (ns : List ℕ) → Small ns → concat_items (map decimal ns) ≡ digits_of ns
unfolding concat_items
concat_items-decimals [] h = refl
concat_items-decimals (n ∷ ns) h =
    rw (cut_suffix-decimal n h.0, pad3-decimal n h.0, concat_items-decimals ns h.1)

version_to_str-render :
    (n : ℕ) (ns : List ℕ) → Small (n ∷ ns) → version_to_str (render (n ∷ ns)) ≡ digits_of (n ∷ ns)
unfolding version_to_str render trim_prefix has_prefix
version_to_str-render n ns h =
    rw (split-join b'.' (decimal n) (map decimal ns) (lacks-decimals (n ∷ ns) h))
      (concat_items-decimals (n ∷ ns) h)

length-digits_of : (ns : List ℕ) → length (digits_of ns) ≡ 3 * length ns
length-digits_of [] = refl
length-digits_of (n ∷ ns) = omega (arith, length-digits_of ns)

greater-three :
    (n m : ℕ) (a b : Bytes)
    → n < 1000
    → m < 1000
    → greater (three n ++ a) (three m ++ b)
      ≡ (if ltb m n then true else if ltb n m then false else greater a b)
unfolding greater
greater-three n m a b h k = ground arith

greater-digits_of :
    (ns ms : List ℕ)
    → Small ns
    → Small ms
    → length ns ≡ length ms
    → greater (digits_of ns) (digits_of ms) ≡ newer ns ms
unfolding newer
greater-digits_of [] ms h k e = unfold greater in refl
greater-digits_of (n ∷ ns) [] h k e = absurd (omega arith)
greater-digits_of (n ∷ ns) (m ∷ ms) h k e = ground (
  arith,
  greater-three n m (digits_of ns) (digits_of ms) h.0 k.0,
  greater-digits_of ns ms h.1 k.1,
)

-- For two versions with the same number of components, each below 1000, the comparison says
-- whether the first is newer, by the first component in which they differ.
pub compare_version_func-newer :
    (n m : ℕ) (ns ms : List ℕ)
    → Small (n ∷ ns)
    → Small (m ∷ ms)
    → length ns ≡ length ms
    → compare_version_func (render (n ∷ ns)) (render (m ∷ ms)) greater ≡ newer (n ∷ ns) (m ∷ ms)
unfolding compare_version_func
compare_version_func-newer n m ns ms h k e =
    rw (version_to_str-render n ns h, version_to_str-render m ms k)
      (ground
        (arith, length-digits_of ns, length-digits_of ms, greater-digits_of (n ∷ ns) (m ∷ ms) h k))

-- Versions with different numbers of components compare as newer both ways round.
pub compare_version_func_lengths :
    (n m : ℕ) (ns ms : List ℕ)
    → Small (n ∷ ns)
    → Small (m ∷ ms)
    → length ns ≢ length ms
    → (compare_version_func (render (n ∷ ns)) (render (m ∷ ms)) greater ≡ true)
      × (compare_version_func (render (m ∷ ms)) (render (n ∷ ns)) greater ≡ true)
unfolding compare_version_func
compare_version_func_lengths n m ns ms h k e =
    let en = version_to_str-render n ns h in
    let em = version_to_str-render m ms k in
    (
      rw (en, em) (ground (arith, length-digits_of ns, length-digits_of ms)),
      rw (en, em) (ground (arith, length-digits_of ns, length-digits_of ms)),
    )

newer_irrefl : (ns : List ℕ) → newer ns ns ≡ false
unfolding newer
newer_irrefl [] = refl
newer_irrefl (n ∷ ns) = ground (arith, newer_irrefl ns)

-- For versions that are "v" and numbers below 1000 with dots between: once a program has recorded its
-- version, a start of the same version does not migrate, and a start of a version with as many
-- numbers migrates exactly if it is newer; the shared flag says the same.
pub is_auto_migrate_once :
    (n m : ℕ) (ns ms : List ℕ) (c : Core)
    → Small (n ∷ ns)
    → Small (m ∷ ms)
    → length ms ≡ length ns
    → let recorded = (record_version false (render (n ∷ ns)) c).0 in
      ((is_auto_migrate (render (n ∷ ns)) recorded).1 ≡ false)
      × ((is_auto_migrate (render (m ∷ ms)) recorded).1 ≡ newer (m ∷ ms) (n ∷ ns))
      × ((is_auto_migrate (render (m ∷ ms)) recorded).0.is_migrate ≡ newer (m ∷ ms) (n ∷ ns))
unfolding is_auto_migrate record_version
is_auto_migrate_once n m ns ms c h k e = (
  compare_version_func-newer n n ns ns h h refl ∙ newer_irrefl (n ∷ ns),
  compare_version_func-newer m n ms ns k h e,
  compare_version_func-newer m n ms ns k h e,
)
