-- ===== src/Web/Pager.antt =====
-- pkg/web/web.go: `PagerFilter`, `DateFilter`, `Limit` and `Offset`. A Go `int` is an integer; the
-- one product of the code wraps at 64 bits.
pub mod Pages
pub mod Sorting
mod Examples
use goddd.Common.{ℕ, Bool, true, false, not, ◌&&◌, ◌||◌, List, [], ◌∷◌, ◌++◌, if◌then◌else◌}
use goddd.Common.Int.{ℤ, pos, ◌-ℤ◌, ◌*ℤ◌, ltb_ℤ, leb_ℤ, wrap64}
use goddd.Common.Text.{Bytes, codes, same, contains, has_prefix, trim_prefix}

pub record PagerFilter : Type 0 where
  pub page : ℤ
  pub size : ℤ
  pub sort : Bytes
  pub sort_safelist : List Bytes

pub new_pager_filter_max_size : PagerFilter
new_pager_filter_max_size = record { page = pos 0; size = pos 99999; sort = []; sort_safelist = [] }

abbrev pub minus : Bytes
minus = b'-' ∷ []

pub sort_column : PagerFilter → Bytes × Bool
sort_column f =
    if not (same f.sort []) && contains f.sort_safelist f.sort
    then (trim_prefix f.sort minus, true)
    else ([], false)

pub sort_direction : PagerFilter → Bytes
sort_direction f = if has_prefix f.sort minus then codes "DESC" else codes "ASC"

pub must_sort_column : PagerFilter → Bytes
unfolding sort_column sort_direction
must_sort_column f =
    let (column, allowed) = sort_column f in
    if not allowed then [] else column ++ (b' ' ∷ sort_direction f)

-- `(page - 1) * size`, in 64 bits.
pub page_start : ℤ → ℤ → ℤ
page_start page size = wrap64 ((page -ℤ pos 1) *ℤ size)

-- `PagerFilter.Offset`
pub offset : PagerFilter → ℤ
offset f = page_start (if ltb_ℤ f.page (pos 1) then pos 1 else f.page) f.size

-- `PagerFilter.Limit`
pub limit : PagerFilter → ℤ
limit f =
    if leb_ℤ f.size (pos 1) then pos 1 else if ltb_ℤ (pos 10000) f.size then pos 10000 else f.size

-- The functions `Limit` and `Offset` of the package.
pub limit_between : ℤ → ℤ → ℤ → ℤ
limit_between v min_v max_v = if ltb_ℤ v min_v then min_v else if ltb_ℤ max_v v then max_v else v

pub offset_of : ℤ → ℤ → ℤ
offset_of page size = if ltb_ℤ page (pos 1) then pos 1 else page_start page size

pub record DateFilter : Type 0 where
  pub start_ms : ℤ
  pub end_ms : ℤ

-- `time.UnixMilli`, as nanoseconds since the epoch.
abbrev pub unix_milli : ℤ → ℤ
unix_milli ms = ms *ℤ pos 1_000_000

pub start_at : DateFilter → ℤ
start_at d = unix_milli d.start_ms

pub end_at : DateFilter → ℤ
end_at d = unix_milli d.end_ms

pub default_start_at : DateFilter → ℤ → ℤ
default_start_at d date =
    if leb_ℤ d.start_ms (pos 0) || ltb_ℤ d.end_ms d.start_ms then date else unix_milli d.start_ms

pub default_end_at : DateFilter → ℤ → ℤ
default_end_at d date =
    if leb_ℤ d.end_ms (pos 0) || ltb_ℤ d.end_ms d.start_ms then date else unix_milli d.end_ms
