-- ===== src/System/Dir.antt =====
-- pkg/system/dir.go: the files below a directory by age, the removal of old files and of empty
-- directories. The file system is a list of what filepath.Walk visits, with its error, and the answer
-- of the system to each removal.
pub mod Clean
mod Examples
use goddd.Common.Int.{leb_ℤ, pos, negsuc, ◌-ℤ◌, ℤ}
use goddd.Common.Text.{Bytes}
use mathlib.Core.Option
use goddd.Common.{
  not, ltb, ◌+◌, [], if◌then◌else◌, Option, Bool, List, ◌∷◌, some, none, false, true, ℕ,
}

pub record FileInfo : Type 0 where
  pub path : Bytes
  pub size : ℕ
  pub mod_time : ℕ
  pub is_dir : Bool

-- What Walk calls its function with.
pub record Visit : Type 0 where
  pub info : FileInfo
  pub failed : Bool

-- `GetDirSize`: the size up to there, and whether there was no error.
pub get_dir_size : List Visit → ℕ → ℕ × Bool
get_dir_size [] size = (size, true)
get_dir_size (v ∷ vs) size =
    if v.failed
    then (size, false)
    else get_dir_size vs (if v.info.is_dir then size else size + v.info.size)

-- The walk of `GlobFiles`.
pub files_of : List Visit → Option (List FileInfo)
files_of [] = some []
files_of (v ∷ vs) =
    let rest = files_of vs in
    if v.failed then none else if v.info.is_dir then rest else Option.map (λ fs. v.info ∷ fs) rest

-- `GlobFiles`, where `sort` is the sort.Slice by the time of the last change.
pub glob_files :
    (((FileInfo → FileInfo → Bool) → List FileInfo → List FileInfo))
    → List Visit
    → Option (List FileInfo)
unfolding files_of
glob_files sort vs = Option.map (sort (λ a b. ltb a.mod_time b.mod_time)) (files_of vs)

-- The loop of `CleanOldFiles`: what was removed, and what `num` is then. `removes` says whether the
-- removal of a path has no error.
pub clean_loop : (Bytes → Bool) → List FileInfo → ℤ → List Bytes × ℤ
clean_loop removes [] num = ([], num)
clean_loop removes (f ∷ fs) num =
    let num_less = num -ℤ pos 1 in
    let rest = clean_loop removes fs num_less in
    let past = clean_loop removes fs num in
    if not (removes f.path)
    then past
    else if leb_ℤ num_less (pos 0)
    then (f.path ∷ [], num_less)
    else (f.path ∷ rest.0, rest.1)

-- `CleanOldFiles`; a negative count is the panic of `make`.
pub clean_old_files : (Bytes → Bool) → List FileInfo → ℤ → Option (List Bytes × ℤ)
unfolding clean_loop
clean_old_files removes files (negsuc n) = none
clean_old_files removes files (pos n) =
    let done = clean_loop removes files (pos n) in some (done.0, pos n -ℤ done.1)
