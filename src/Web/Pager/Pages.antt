-- ===== src/Web/Pager/Pages.antt =====
-- Pages by limit and offset: bounds, and which rows the pages of a listing show.
use goddd.Common.{ℕ, suc, ◌+◌, ◌-◌, ◌*◌, ◌^◌, ◌≤◌, ◌<◌, ◌≡◌, sym, ap, ◌∙◌, [], arith, if◌then◌else◌}
use goddd.Common.Int.{
  ℤ, pos, ◌+ℤ◌, ◌*ℤ◌, ◌≤ℤ◌, ◌<ℤ◌, ltb_ℤ, wrap64, wrap64_of_lt, mul_pos, add_pos, sub_one_pos,
}
use goddd.Web.Pager.{PagerFilter, offset, limit, limit_between, offset_of, page_start}
use mathlib.Core.Path.{ap₂}

-- A page holds 1 to 10000 rows: the size that was asked for, cut to these bounds.
pub limit_bounds :
    (f : PagerFilter)
    → (pos 1 ≤ℤ limit f)
      × (limit f ≤ℤ pos 10000)
      × (limit f ≡ limit_between f.size (pos 1) (pos 10000))
unfolding limit limit_between
limit_bounds f = ground arith

limit_between_bounds :
    (v min_v max_v : ℤ)
    → min_v ≤ℤ max_v
    → (min_v ≤ℤ limit_between v min_v max_v) × (limit_between v min_v max_v ≤ℤ max_v)
unfolding limit_between
limit_between_bounds v a b h = ground arith

abbrev pub asked : ℕ → ℕ → PagerFilter
asked page size = record { page = pos page; size = pos size; sort = []; sort_safelist = [] }

-- The offset of a page, if the product fits in 64 bits.
page_start_pos :
    (n size : ℕ) → n * size < 2 ^ 63 → page_start (pos (suc n)) (pos size) ≡ pos (n * size)
unfolding page_start
page_start_pos n size h =
    ap (λ t. wrap64 (t *ℤ pos size)) (sub_one_pos n)
    ∙ ap wrap64 (mul_pos n size)
    ∙ wrap64_of_lt (n * size) h

offset-asked : (n size : ℕ) → n * size < 2 ^ 63 → offset (asked (suc n) size) ≡ pos (n * size)
unfolding offset
offset-asked n size h = ap (λ p. page_start p (pos size)) first ∙ page_start_pos n size h
  where
    first : (if ltb_ℤ (pos (suc n)) (pos 1) then pos 1 else pos (suc n)) ≡ pos (suc n)
    first = ground arith

limit-asked : (page size : ℕ) → 1 ≤ size → size ≤ 10000 → limit (asked page size) ≡ pos size
unfolding limit
limit-asked page size h k = ground arith

limit-asked_large : (page size : ℕ) → 10000 < size → limit (asked page size) ≡ pos 10000
unfolding limit
limit-asked_large page size h = ground arith

-- For a size from 1 to 10000 the pages follow one another: each page begins where the one before
-- ends, as long as the offset fits in 64 bits.
pub offset-limit :
    (n size : ℕ)
    → 1 ≤ size
    → size ≤ 10000
    → suc n * size < 2 ^ 63
    → offset (asked (suc (suc n)) size) ≡ offset (asked (suc n) size) +ℤ limit (asked (suc n) size)
offset-limit n size h k w =
    let before : n * size < 2 ^ 63 = grind arith in
    let e : n * size + size ≡ suc n * size = omega arith in
    offset-asked (suc n) size w
    ∙ sym (
        ap₂ ◌+ℤ◌ (offset-asked n size before) (limit-asked (suc n) size h k)
        ∙ add_pos (n * size) size
        ∙ ap pos e)

-- For a larger size the limit is cut to 10000 and the offset is not: the rows between the end of
-- one page and the start of the next, `size - 10000` of them, are on no page.
pub offset-limit_gap :
    (n size : ℕ)
    → 10000 < size
    → suc n * size < 2 ^ 63
    → (offset (asked (suc n) size) +ℤ limit (asked (suc n) size)) +ℤ pos (size - 10000)
      ≡ offset (asked (suc (suc n)) size)
offset-limit_gap n size h w =
    let before : n * size < 2 ^ 63 = grind arith in
    let e : n * size + 10000 + (size - 10000) ≡ suc n * size = omega arith in
    ap (λ t. t +ℤ pos (size - 10000))
      (ap₂ ◌+ℤ◌ (offset-asked n size before) (limit-asked_large (suc n) size h)
        ∙ add_pos (n * size) 10000)
    ∙ add_pos (n * size + 10000) (size - 10000)
    ∙ ap pos e
    ∙ sym (offset-asked (suc n) size w)

page_start_one : (size : ℤ) → page_start (pos 1) size ≡ pos 0
unfolding page_start
page_start_one size =
    ap (λ t. wrap64 (t *ℤ size)) (sub_one_pos 0)
    ∙ ap wrap64 (none_of size)
    ∙ wrap64_of_lt 0 (omega arith)
  where
    none_of : (n : ℤ) → pos 0 *ℤ n ≡ pos 0
    none_of n = ground arith

-- The two offsets of the package differ before page 1: the method begins at row 0, and the
-- function at row 1.
pub offset_of_before_first :
    (page size : ℤ)
    → page <ℤ pos 1
    → (offset (record { page = page; size = size; sort = []; sort_safelist = [] }) ≡ pos 0)
      × (offset_of page size ≡ pos 1)
unfolding offset_of offset
offset_of_before_first page size h =
    (ap (λ p. page_start p size) first ∙ page_start_one size, ground arith)
  where
    first : (if ltb_ℤ page (pos 1) then pos 1 else page) ≡ pos 1
    first = ground arith
