-- ===== src/System/Dir/Clean.antt =====
-- Which files are removed.
use goddd.Common.Int.{leb_ℤ, sub_one_pos, negsuc, ℤ, ◌-ℤ◌, pos}
use goddd.System.Dir.{clean_old_files, pos, FileInfo, clean_loop}
use goddd.Common.Text.{Bytes}
use goddd.Common.{
  false, zero, ap, Bool-cases, inr, inl, some, arith, length, take, ◌≡◌, suc, [], if◌then◌else◌,
  List, Bool, ◌∷◌, refl, ℕ,
}

-- The paths whose removal has no error.
abbrev pub removable : (Bytes → Bool) → List FileInfo → List Bytes
removable removes [] = []
removable removes (f ∷ fs) =
    if removes f.path then f.path ∷ removable removes fs else removable removes fs

sub_suc : (m : ℕ) (z : ℤ) (l : ℕ) → pos (suc m) -ℤ z ≡ pos l → pos (suc (suc m)) -ℤ z ≡ pos (suc l)
sub_suc m (pos k) l h = ground arith
sub_suc m (negsuc k) l h = ground arith

not_done : (n : ℕ) → leb_ℤ (pos (suc n)) (pos 0) ≡ false
not_done n = ground arith

clean_loop_lem :
    (removes : Bytes → Bool) (files : List FileInfo) (n : ℕ)
    → ((clean_loop removes files (pos (suc n))).0 ≡ take (suc n) (removable removes files))
      × (pos (suc n) -ℤ (clean_loop removes files (pos (suc n))).1
          ≡ pos (length (take (suc n) (removable removes files))))
unfolding clean_loop
clean_loop_lem removes [] n = (refl, ground arith)
clean_loop_lem removes (f ∷ fs) zero = elim (Bool-cases (removes f.path)) [
  | inl b ↦ rw b (refl, refl)
  | inr b ↦ rw b (clean_loop_lem removes fs zero)
]
clean_loop_lem removes (f ∷ fs) (suc n) =
    let ih = clean_loop_lem removes fs n in
    elim (Bool-cases (removes f.path)) [
      | inl b ↦ rw b (
          rw (sub_one_pos (suc n)) (
            rw (not_done n) (
              ap (◌∷◌ f.path) ih.0,
              sub_suc n (clean_loop removes fs (pos (suc n))).1
                  (length (take (suc n) (removable removes fs))) ih.1,
            )))
      | inr b ↦ rw b (clean_loop_lem removes fs (suc n))
    ]

clean_loop_zero :
    (removes : Bytes → Bool) (files : List FileInfo)
    → ((clean_loop removes files (pos 0)).0 ≡ take 1 (removable removes files))
      × (pos 0 -ℤ (clean_loop removes files (pos 0)).1
          ≡ pos (length (take 1 (removable removes files))))
unfolding clean_loop
clean_loop_zero removes [] = (refl, refl)
clean_loop_zero removes (f ∷ fs) = elim (Bool-cases (removes f.path)) [
  | inl b ↦ rw b (refl, refl)
  | inr b ↦ rw b (clean_loop_zero removes fs)
]

-- For a count of at least one, CleanOldFiles removes the first files of the list whose removal has
-- no error, as many as the count asks or as there are, passing over the others, and returns how many
-- it removed. For the count zero it does what it does for one: one file is removed all the same.
pub clean_old_files_lem :
    (removes : Bytes → Bool) (files : List FileInfo) (n : ℕ)
    → (clean_old_files removes files (pos (suc n))
        ≡ some (
          take (suc n) (removable removes files),
          pos (length (take (suc n) (removable removes files))),
        ))
      × (clean_old_files removes files (pos 0)
          ≡ some
              (take 1 (removable removes files), pos (length (take 1 (removable removes files)))))
unfolding clean_old_files
clean_old_files_lem removes files n =
    let loop = clean_loop_lem removes files n in
    let zero_loop = clean_loop_zero removes files in
    (rw loop.0 (rw loop.1 refl), rw zero_loop.0 (rw zero_loop.1 refl))
