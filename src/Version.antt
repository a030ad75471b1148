-- ===== src/Version.antt =====
-- domain/version/core.go: whether the tables are to be migrated at the start of the program, by the
-- order of two version texts. pkg/system/ver.go has the same comparison without the leading "v".
pub mod Order
mod Examples
use goddd.Common.{
  ℕ, zero, suc, ◌+◌, ◌-◌, ◌<◌, Bool, true, false, not, List, [], ◌∷◌, ◌++◌, Option, none, some,
  length, replicate, ltb, ◌==◌, if◌then◌else◌, map,
}
use goddd.Common.Text.{Bytes, split, trim_prefix}

-- `item[0:idx]` where `idx` is the first "-", or the whole item.
pub cut_suffix : Bytes → Bytes
cut_suffix [] = []
cut_suffix (c ∷ s) = let rest = cut_suffix s in if c == b'-' then [] else c ∷ rest

-- `fmt.Sprintf("%03s", item)` pads with zeros on the left to three characters.
pub pad3 : Bytes → Bytes
pad3 s = replicate (3 - length s) b'0' ++ s

pub concat_items : List Bytes → Bytes
unfolding cut_suffix pad3
concat_items [] = []
concat_items (item ∷ items) = pad3 (cut_suffix item) ++ concat_items items

pub version_to_str : Bytes → Bytes
unfolding concat_items
version_to_str s = concat_items (split b'.' (trim_prefix s (b'v' ∷ [])))

-- The copy of pkg/system/ver.go.
pub system_version_to_str : Bytes → Bytes
unfolding concat_items
system_version_to_str s = concat_items (split b'.' s)

pub compare_version_func : Bytes → Bytes → (Bytes → Bytes → Bool) → Bool
unfolding version_to_str
compare_version_func a b f =
    let s1 = version_to_str a in
    let s2 = version_to_str b in if not (length s1 == length s2) then true else f s1 s2

pub system_compare_version_func : Bytes → Bytes → (Bytes → Bytes → Bool) → Bool
unfolding system_version_to_str
system_compare_version_func a b f =
    let s1 = system_version_to_str a in
    let s2 = system_version_to_str b in if not (length s1 == length s2) then true else f s1 s2

-- Go's `a > b` on strings.
pub greater : Bytes → Bytes → Bool
greater [] b = false
greater (x ∷ a) [] = true
greater (x ∷ a) (y ∷ b) =
    let rest = greater a b in if ltb y x then true else if ltb x y then false else rest

-- `Core`, with its store: the newest recorded version, or an error, and the shared flag.
pub record Core : Type 0 where
  pub recorded : Option Bytes
  pub is_migrate : Bool

pub is_auto_migrate : Bytes → Core → Core × Bool
unfolding compare_version_func greater
is_auto_migrate current c = elim c.recorded [
  | none ↦ (record c { is_migrate = true }, true)
  | some ver ↦
      let migrate = compare_version_func current ver greater in
      (record c { is_migrate = migrate }, migrate)
]

-- `RecordVersion`: the store adds a row, or reports an error and adds none.
pub record_version : Bool → Bytes → Core → Core × Bool
record_version store_fails current c =
    if store_fails then (c, false) else (record c { recorded = some current }, true)
