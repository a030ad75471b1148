-- ===== src/System/EmptyDirs.antt =====
-- `RemoveEmptyDirs` of pkg/system/dir.go. A path is of any type with a decidable equality, and `parent`
-- is filepath.Dir. The file system is what filepath.Walk visits: what is below a directory for which
-- the function returns SkipDir it does not visit. The loop over a map takes its keys in any
-- order, so each round has an order of its own.
pub mod Empty
mod Examples
use goddd.Common.Assoc.{insert, lookup, erase}
use goddd.Common.Int.{negsuc, ltb_ℤ, ◌-ℤ◌, ◌+ℤ◌, ℤ, pos}
use mathlib.Core.Option
use goddd.Common.{
  ◌==◌, not, ◌&&◌, ◌||◌, ite, Option, [], List, Bool, if◌then◌else◌, ◌∷◌, some, none, false, true,
  ℕ,
}

-- What Walk calls its function with.
pub record Visit (P : Type 0) : Type 0 where
  pub path : P
  pub is_dir : Bool
  pub mod_time : ℤ
  pub failed : Bool

-- `counted` is history: the paths that their parents were counted for, without those that were
-- removed. `removed` has each removed directory with what was counted then.
pub record State (P : Type 0) : Type 0 where
  pub counts : List (P × ℤ)
  pub counted : List P
  pub removed : List (P × List P)
  pub changed : Bool
  pub failed : Bool

pub data Ended : Type 0 where
  nil_error : Ended
  remove_error : Ended
  context_error : Ended
  still_running : Ended

pub is_zero : ℤ → Bool
is_zero (pos n) = n == 0
is_zero (negsuc n) = false

module _ {P : Type 0} (dec : Discrete P) (parent : P → P) where
  -- `m[k]`, which is 0 without an entry.
  pub count_of : P → List (P × ℤ) → ℤ
  count_of k m = elim (lookup dec k m) [ none ↦ pos 0 | some n ↦ n ]

  pub is_same : P → P → Bool
  is_same p q = ite (dec p q) true false

  -- `dirFileCount[parentDir]++`, unless the path is its own parent.
  pub count_path : P → State P → State P
  unfolding count_of is_same
  count_path p s = if is_same (parent p) p then s else record s {
    counts = insert dec (parent p) (count_of (parent p) s.counts +ℤ pos 1) s.counts;
    counted = p ∷ s.counted;
  }

  -- The function that Walk calls; `none` is an error.
  pub visit : P → ℤ → ℤ → Visit P → State P → Option (State P)
  unfolding count_path is_same
  visit root start end v s =
      if v.failed
      then none
      else if v.is_dir && not (is_same v.path root)
      then if ltb_ℤ v.mod_time start || ltb_ℤ end v.mod_time
        then some s
        else some (count_path v.path (record s { counts = insert dec v.path (pos 0) s.counts }))
      else some (count_path v.path s)

  pub walk : P → ℤ → ℤ → List (Visit P) → State P → Option (State P)
  unfolding visit
  walk root start end [] s = some s
  walk root start end (v ∷ vs) s = elim (visit root start end v s) [
    | none ↦ none
    | some s' ↦ walk root start end vs s'
  ]

  -- The list without the first occurrence of a path.
  pub without : P → List P → List P
  without p [] = []
  without p (q ∷ qs) = ite (dec q p) qs (q ∷ without p qs)

  -- os.RemoveAll on a directory, and what follows it.
  pub remove_dir : P → State P → State P
  unfolding count_of is_same without
  remove_dir p s =
      let counts = erase dec p s.counts in
      let s' : State P = record s {
        counts = counts;
        counted = without p s.counted;
        removed = (p, s.counted) ∷ s.removed;
      } in
      if is_same (parent p) p then s' else record s' {
        counts = insert dec (parent p) (count_of (parent p) counts -ℤ pos 1) counts;
        changed = true;
      }

  -- One key of the map, with its count, unless it was deleted. `removes` says whether the removal of a
  -- path has no error.
  pub turn_at : (P → Bool) → P → Option ℤ → State P → State P
  unfolding remove_dir is_zero
  turn_at removes p none s = s
  turn_at removes p (some n) s =
      if s.failed || not (is_zero n)
      then s
      else if not (removes p)
      then record s { failed = true }
      else remove_dir p s

  pub turn : (P → Bool) → P → State P → State P
  unfolding turn_at
  turn removes p s = turn_at removes p (lookup dec p s.counts) s

  pub sweep : (P → Bool) → List P → State P → State P
  unfolding turn
  sweep removes [] s = s
  sweep removes (p ∷ ps) s = sweep removes ps (turn removes p s)

  -- The rounds: `none` is a context that is done, and else the order of the keys is given.
  pub rounds : (P → Bool) → List (Option (List P)) → State P → State P × Ended
  unfolding sweep
  rounds removes [] s = (s, still_running)
  rounds removes (none ∷ rs) s = (s, context_error)
  rounds removes (some order ∷ rs) s =
      let s' = sweep removes order (record s { changed = false }) in
      let rest = rounds removes rs s' in
      if s'.failed then (s', remove_error) else if not s'.changed then (s', nil_error) else rest

  -- `dirFileCount[filepath.Dir(cleanRootDir)]++` comes first.
  pub initial : P → State P
  initial root = record {
    counts = (parent root, pos 1) ∷ [];
    counted = [];
    removed = [];
    changed = false;
    failed = false;
  }

  -- `RemoveEmptyDirs`; `none` is an error of the walk.
  pub remove_empty_dirs :
      P → ℤ → ℤ → (P → Bool) → List (Visit P) → List (Option (List P)) → Option (State P × Ended)
  unfolding walk rounds initial
  remove_empty_dirs root start end removes visits schedule =
      Option.map (rounds removes schedule) (walk root start end visits (initial root))
