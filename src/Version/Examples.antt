-- ===== src/Version/Examples.antt =====
-- Runs of the version comparison, and instances of its theorems.
use goddd.Common.{◌≡◌, refl, true, false, [], ◌∷◌, none, arith}
use goddd.Common.Text.{codes, split, trim_prefix, has_prefix}
use goddd.Version.{
  version_to_str, compare_version_func, greater, system_compare_version_func, Core, is_auto_migrate,
  record_version,
}
use goddd.Version.Order.{render, newer, compare_version_func-newer, is_auto_migrate_once}

version_to_str_run : version_to_str (codes "v1.12.3-rc1") ≡ codes "001012003"
unfolding version_to_str split trim_prefix has_prefix
version_to_str_run = refl

longer_both_ways :
    (compare_version_func (codes "1.2") (codes "1.2.0") greater ≡ true)
    × (system_compare_version_func (codes "1.2.0") (codes "1.2") greater ≡ true)
unfolding compare_version_func system_compare_version_func greater split trim_prefix has_prefix
longer_both_ways = (refl, refl)

compare_version_func-newer_example :
    compare_version_func (render (1 ∷ 10 ∷ 0 ∷ [])) (render (1 ∷ 9 ∷ 7 ∷ [])) greater
    ≡ newer (1 ∷ 10 ∷ 0 ∷ []) (1 ∷ 9 ∷ 7 ∷ [])
compare_version_func-newer_example =
    compare_version_func-newer 1 1 (10 ∷ 0 ∷ []) (9 ∷ 7 ∷ []) (omega arith) (omega arith) refl

abbrev fresh : Core
fresh = record { recorded = none; is_migrate = false }

is_auto_migrate_once_example :
    let recorded = (record_version false (render (0 ∷ 0 ∷ 1 ∷ [])) fresh).0 in
    ((is_auto_migrate (render (0 ∷ 0 ∷ 1 ∷ [])) recorded).1 ≡ false)
    × ((is_auto_migrate (render (0 ∷ 2 ∷ 0 ∷ [])) recorded).1
        ≡ newer (0 ∷ 2 ∷ 0 ∷ []) (0 ∷ 0 ∷ 1 ∷ []))
    × ((is_auto_migrate (render (0 ∷ 2 ∷ 0 ∷ [])) recorded).0.is_migrate
        ≡ newer (0 ∷ 2 ∷ 0 ∷ []) (0 ∷ 0 ∷ 1 ∷ []))
is_auto_migrate_once_example =
    is_auto_migrate_once 0 0 (0 ∷ 1 ∷ []) (2 ∷ 0 ∷ []) fresh (omega arith) (omega arith) refl
