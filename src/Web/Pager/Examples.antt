-- ===== src/Web/Pager/Examples.antt =====
-- Pages of concrete requests.
use goddd.Common.{◌≡◌, refl, [], ◌∷◌}
use goddd.Common.Text.{codes, trim_prefix, has_prefix, contains, same}
use goddd.Common.Int.{pos}
use goddd.Web.Pager.{PagerFilter, must_sort_column}

abbrev oversized : PagerFilter
oversized = record {
  page = pos 3;
  size = pos 20_000;
  sort = codes "-id";
  sort_safelist = codes "name" ∷ codes "-id" ∷ [];
}

sorted_by_id : must_sort_column oversized ≡ codes "id DESC"
unfolding must_sort_column trim_prefix has_prefix contains same
sorted_by_id = refl
