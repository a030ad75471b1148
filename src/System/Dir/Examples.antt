-- ===== src/System/Dir/Examples.antt =====
-- Three files, of which the second cannot be removed.
use goddd.Common.Int.{pos}
use goddd.System.Dir.Clean.{clean_old_files_lem, removable}
use goddd.Common.Text.{same, Bytes}
use goddd.System.Dir.{pos, FileInfo, clean_old_files}
use goddd.Common.{length, take, not, ◌≡◌, [], Bool, List, ◌∷◌, some, false, refl, ℕ}

file : ℕ → FileInfo
file n = record { path = n ∷ []; size = n; mod_time = n; is_dir = false }

files : List FileInfo
files = file 1 ∷ file 2 ∷ file 3 ∷ []

removes : Bytes → Bool
removes p = not (same p (2 ∷ []))

clean_old_files_lem_example :
    (clean_old_files removes files (pos 2)
      ≡ some (take 2 (removable removes files), pos (length (take 2 (removable removes files)))))
    × (clean_old_files removes files (pos 0)
        ≡ some (take 1 (removable removes files), pos (length (take 1 (removable removes files)))))
clean_old_files_lem_example = clean_old_files_lem removes files 1

removed : removable removes files ≡ (1 ∷ []) ∷ (3 ∷ []) ∷ []
unfolding removes files file same
removed = refl

zero_removes : clean_old_files removes files (pos 0) ≡ some ((1 ∷ []) ∷ [], pos 1)
unfolding clean_old_files removes files file same
zero_removes = refl
