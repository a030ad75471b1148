-- ===== src/Web/Validator/First.antt =====
-- A validator says which checks failed first.
use mathlib.Core.Option.{some-injective}
use goddd.Common.Assoc.{
  insert-IsDistinct, length-insert_new, IsDistinct, lookup-insert_ne, lookup-insert, lookup,
}
use goddd.Common.Text.{contains, same_iff, same, bytes_discrete, Bytes}
use goddd.Web.Validator.{
  new_validator, list, result, line_of, valid, lookup, Validator, Checked, add_error, check,
  check_all,
}
use goddd.Common.{
  ◌++◌, ◌↔◌, ◌∙◌, sym, map, Bool-cases, Option-cases, length, ◌<◌, inr, inl, false, ap, arith, ◌≡◌,
  [], ◌&&◌, not, if◌then◌else◌, Bool, List, Option, ◌∷◌, some, none, true,
}

-- The message of the first check with a key that fails.
abbrev pub first_failing : Bytes → List Checked → Option Bytes
first_failing k [] = none
first_failing k (c ∷ cs) = if not c.ok && same c.key k then some c.message else first_failing k cs

abbrev pub all_ok : List Checked → Bool
all_ok [] = true
all_ok (c ∷ cs) = c.ok && all_ok cs

-- The lookup in a validator, continued by the checks that follow.
abbrev or_first : Option Bytes → Bytes → List Checked → Option Bytes
or_first (some m) k cs = some m
or_first none k cs = first_failing k cs

check-lookup :
    (c : Checked) (v : Validator) (k : Bytes)
    → lookup bytes_discrete k (check c.ok c.key c.message v).errors
      ≡ or_first (lookup bytes_discrete k v.errors) k (c ∷ [])
unfolding check add_error
check-lookup c v k = elim (bytes_discrete c.key k) [
  | yes p ↦ ground (
    arith,
    (same_iff c.key k).1 p,
    lookup-insert bytes_discrete c.key k c.message v.errors,
    ap (λ j. lookup bytes_discrete j v.errors) p,
  )
  | no p ↦
      ground
        (arith, same_iff c.key k, p, lookup-insert_ne bytes_discrete c.key k c.message v.errors p)
]

check_all-lookup :
    (cs : List Checked) (v : Validator) (k : Bytes)
    → lookup bytes_discrete k (check_all cs v).errors
      ≡ or_first (lookup bytes_discrete k v.errors) k cs
unfolding check_all
check_all-lookup [] v k = ground arith
check_all-lookup (c ∷ cs) v k =
    ground (arith, check-lookup c v k, check_all-lookup cs (check c.ok c.key c.message v) k)

length-lookup :
    (k m : Bytes) (es : List (Bytes × Bytes)) → lookup bytes_discrete k es ≡ some m → 0 < length es
unfolding lookup
length-lookup k m [] h = cc
length-lookup k m (e ∷ es) h = omega arith

add_error-valid : (key message : Bytes) (v : Validator) → valid (add_error key message v) ≡ false
unfolding valid add_error
add_error-valid key message v = elim (Option-cases (lookup bytes_discrete key v.errors)) [
  | inl e ↦ ground (arith, e, length-insert_new bytes_discrete key message v.errors)
  | inr (m, e) ↦ ground (arith, e, length-lookup key m v.errors e)
]

check_all-valid :
    (cs : List Checked) (v : Validator) → valid (check_all cs v) ≡ valid v && all_ok cs
unfolding check_all check
check_all-valid [] v = ground arith
check_all-valid (c ∷ cs) v =
    ground
      (arith, check_all-valid cs (check c.ok c.key c.message v), add_error-valid c.key c.message v)

check-IsDistinct :
    (c : Checked) (v : Validator)
    → IsDistinct bytes_discrete v.errors
    → IsDistinct bytes_discrete (check c.ok c.key c.message v).errors
unfolding check add_error
check-IsDistinct c v d = elim (Bool-cases c.ok) [
  | inl b ↦ rw b d
  | inr b ↦ elim (Option-cases (lookup bytes_discrete c.key v.errors)) [
    | inl e ↦ rw (b, add_error, e) (insert-IsDistinct bytes_discrete c.key c.message v.errors d)
    | inr (m, e) ↦ rw (b, add_error, e) d
  ]
]

check_all-IsDistinct :
    (cs : List Checked) (v : Validator)
    → IsDistinct bytes_discrete v.errors
    → IsDistinct bytes_discrete (check_all cs v).errors
unfolding check_all
check_all-IsDistinct [] v d = d
check_all-IsDistinct (c ∷ cs) v d =
    check_all-IsDistinct cs (check c.ok c.key c.message v) (check-IsDistinct c v d)

-- The lines of a map are those of the entries that are found.
abbrev IsLine : Bytes → List (Bytes × Bytes) → Type 0
IsLine s es = (k m : Bytes) × (lookup bytes_discrete k es ≡ some m) × (s ≡ line_of (k, m))

contains-IsLine :
    (s : Bytes) (es : List (Bytes × Bytes))
    → IsDistinct bytes_discrete es
    → contains (map line_of es) s ≡ true
    → IsLine s es
unfolding lookup contains
contains-IsLine s [] d h = cc
contains-IsLine s ((j, w) ∷ es) d h = elim (Bool-cases (same (line_of (j, w)) s)) [
  | inl e ↦ (j, w, ground arith, sym ((same_iff (line_of (j, w)) s).0 e))
  | inr n ↦
      (let (k, m, found, is) = contains-IsLine s es d.1 (ground (arith, h, n)) in
        (
          k,
          m,
          ground (arith, found, d.0, ap (λ i. lookup bytes_discrete i es) {x = j} {y = k}),
          is,
        ))
]

IsLine-contains :
    (s : Bytes) (es : List (Bytes × Bytes)) → IsLine s es → contains (map line_of es) s ≡ true
unfolding lookup contains
IsLine-contains s [] (k, m, found, is) = cc
IsLine-contains s ((j, w) ∷ es) (k, m, found, is) = elim (bytes_discrete j k) [
  | yes p ↦
      (let e : some w ≡ some m = ground (arith, p, found) in
        let line =
          is
          ∙ ap (λ i. line_of (i, m)) (sym p)
          ∙ ap (λ i. line_of (j, i)) (sym (some-injective _ _ e)) in
        ground (arith, (same_iff (line_of (j, w)) s).1 (sym line)))
  | no p ↦
      (let rest = IsLine-contains s es (k, m, ground (arith, p, found), is) in ground (arith, rest))
]

-- After a chain of calls of `Check` on a new validator: it is valid exactly when all checks were ok, for
-- each key it holds the message of the first check with that key that failed, and none if none
-- did, and the lines of `List` are those of the keys with a message.
pub result-check_all :
    (cs : List Checked) (k s : Bytes)
    → ((result (check_all cs new_validator)).0 ≡ all_ok cs)
      × (lookup bytes_discrete k (check_all cs new_validator).errors ≡ first_failing k cs)
      × ((contains (result (check_all cs new_validator)).1 s ≡ true) ↔ (
          (key message : Bytes) × (first_failing key cs ≡ some message)
          × (s ≡ key ++ (b' ' ∷ message))))
unfolding result list new_validator valid line_of lookup
result-check_all cs k s =
    let found = λ (key : Bytes). check_all-lookup cs new_validator key in
    let distinct = check_all-IsDistinct cs new_validator tt in
    (
      check_all-valid cs new_validator,
      found k,
      (
        λ h.
            (let (key, message, held, is) =
                contains-IsLine s (check_all cs new_validator).errors distinct h in
              (key, message, sym (found key) ∙ held, is)),
        λ h.
            (let (key, message, failed, is) = h in
              IsLine-contains s (check_all cs new_validator).errors
                (key, message, found key ∙ failed, is)),
      ),
    )
