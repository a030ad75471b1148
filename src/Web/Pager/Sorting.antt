-- ===== src/Web/Pager/Sorting.antt =====
-- A sort key of a request reaches the query only if the handler listed it.
use mathlib.Core.Bool.{false≢true}
use mathlib.Core.List.{Mem, mem-cons_self, mem-cons_of_mem}
use goddd.Common.{
  ◌≡◌, sym, ◌∙◌, ◌≢◌, ◌⊎◌, inl, inr, true, Bool-cases, List, [], ◌∷◌, ◌++◌, arith, if◌then◌else◌,
}
use goddd.Common.Text.{Bytes, codes, same, same_iff, contains, has_prefix, trim_prefix}
use goddd.Web.Pager.{PagerFilter, sort_column, sort_direction, must_sort_column, minus}

contains-mem : (xs : List Bytes) (s : Bytes) → contains xs s ≡ true → Mem s xs
unfolding contains
contains-mem [] s h = cc
contains-mem (x ∷ xs) s h = elim (Bool-cases (same x s)) [
  | inl e ↦ rw ((same_iff x s).0 e) mem-cons_self
  | inr e ↦ mem-cons_of_mem x (contains-mem xs s (ground arith))
]

-- What the ORDER BY clause gets is nothing, or a key of the handler's list, less its minus sign,
-- with DESC if it had one and ASC if not.
pub must_sort_column_safe :
    (f : PagerFilter)
    → (must_sort_column f ≡ [])
      ⊎ ((f.sort ≢ [])
          × Mem f.sort f.sort_safelist
          × (must_sort_column f
              ≡ trim_prefix f.sort minus
                ++ (b' ' ∷ (if has_prefix f.sort minus then codes "DESC" else codes "ASC"))))
unfolding must_sort_column sort_column sort_direction
must_sort_column_safe f = elim (Bool-cases (same f.sort [])) [
  | inl e ↦ inl (ground arith)
  | inr e ↦ elim (Bool-cases (contains f.sort_safelist f.sort)) [
    | inl c ↦ inr (
      (λ h. false≢true (sym e ∙ (same_iff f.sort []).1 h)),
      contains-mem f.sort_safelist f.sort c,
      ground arith,
    )
    | inr c ↦ inl (ground arith)
  ]
]
