-- ===== src/Reason/Laws.antt =====
-- What the setters keep, what `With` adds, and when the table of reasons lets a reason in.
use Prim.Native.String.{String}
use native.Mathlib.Nat.{pow-suc}
use text.Mathlib.TextEquality.{eq_iff}
use goddd.Common.{
  Option-cases, map, ℕ, zero, suc, ◌+◌, ◌^◌, ◌≡◌, refl, true, false, ◌||◌, Bool-cases, inl, inr,
  List, [], ◌∷◌, ◌++◌, none, some, arith, length, length-append,
}
use goddd.Reason.{
  Error, set_http_status, set_msg, with_args, withf, is_error, Codes, has_code, new_error, Declared,
  declare, declare_all, plain, status,
}

-- A setter of an error: what the chained calls of the source do one after the other.
pub data Change : Type 0 where
  to_status : ℕ → Change
  to_msg : String → Change
  add_args : List String → Change
  add_text : String → Change

pub apply_all : List Change → Error → Error
apply_all [] e = e
apply_all (to_status n ∷ cs) e = apply_all cs (set_http_status n e)
apply_all (to_msg s ∷ cs) e = apply_all cs (set_msg s e)
apply_all (add_args args ∷ cs) e = apply_all cs (with_args args e)
apply_all (add_text s ∷ cs) e = apply_all cs (withf s e)

-- An error keeps its reason through any chain of setters, so it is still recognised as the error
-- that it was made from.
pub is_error-apply_all :
    (cs : List Change) (e : Error) → is_error (apply_all cs e) (some e.reason) ≡ true
unfolding is_error apply_all set_http_status set_msg with_args withf
is_error-apply_all [] e = (eq_iff e.reason e.reason).1 refl
is_error-apply_all (to_status n ∷ cs) e = is_error-apply_all cs (set_http_status n e)
is_error-apply_all (to_msg s ∷ cs) e = is_error-apply_all cs (set_msg s e)
is_error-apply_all (add_args args ∷ cs) e = is_error-apply_all cs (with_args args e)
is_error-apply_all (add_text s ∷ cs) e = is_error-apply_all cs (withf s e)

-- The details after `n` calls of `With`, each with the text `d`.
pub with_times : ℕ → String → Error → Error
with_times zero d e = e
with_times (suc n) d e = with_args (d ∷ []) (with_times n d e)

-- `With` doubles what is there: `n` calls with one text each, made on an error with no details,
-- leave `2 ^ n - 1` details.
pub length-with_times :
    (n : ℕ) (d : String) (e : Error)
    → length e.details ≡ 0
    → length (with_times n d e).details + 1 ≡ 2 ^ n
unfolding with_times with_args
length-with_times zero d e h = omega arith
length-with_times (suc n) d e h =
    let ds = (with_times n d e).details in
    simp pow-suc (
      omega
        (arith, length-append (ds ++ ds) (d ∷ []), length-append ds ds, length-with_times n d e h))

abbrev pub reason_of : Declared → String
reason_of (plain r m) = r
reason_of (status r m n) = r

-- The error and the table entry that a declaration makes.
pub declared_error : Declared → Error
declared_error (plain r m) = record { reason = r; msg = m; details = []; http_status = 400 }
declared_error (status r m n) = record { reason = r; msg = m; details = []; http_status = n }

has_code-append :
    (r : String) (xs ys : Codes) → has_code r (xs ++ ys) ≡ (has_code r xs || has_code r ys)
unfolding has_code
has_code-append r [] ys = refl
has_code-append r ((k, m) ∷ xs) ys = ground (arith, has_code-append r xs ys)

-- A declaration panics exactly if its reason is in the table.
declare-none :
    (d : Declared) (codes : Codes) → has_code (reason_of d) codes ≡ true → declare d codes ≡ none
unfolding declare new_error
declare-none (plain r m) codes h = rw h
declare-none (status r m n) codes h = rw (h, declare)

-- A declaration that does not panic makes its error, keeps the table, and adds its reason.
declare-some :
    (d : Declared) (codes : Codes)
    → has_code (reason_of d) codes ≡ false
    → (entry : String × String) × (declare d codes ≡ some (codes ++ (entry ∷ []), declared_error d))
      × (has_code (reason_of d) (entry ∷ []) ≡ true)
unfolding declare new_error declared_error set_http_status has_code
declare-some (plain r m) codes h = ((r, m), rw h, rw ((eq_iff r r).1 refl))
declare-some (status r m n) codes h = ((r, m), rw (h, declare), rw ((eq_iff r r).1 refl))

-- A reason in the table makes a later declaration of it panic, whatever stands between.
declare_all_after :
    (d : Declared) (before after : List Declared) (codes : Codes)
    → has_code (reason_of d) codes ≡ true
    → declare_all (before ++ d ∷ after) codes ≡ none
unfolding declare_all
declare_all_after d [] after codes h = rw (declare-none d codes h, declare_all)
declare_all_after d (c ∷ before) after codes h = elim (Bool-cases (has_code (reason_of c) codes)) [
  | inl e ↦ rw (declare-none c codes e, declare_all)
  | inr e ↦
      let (entry, made, _) = declare-some c codes e in
      rw (made, declare_all)
        (rw (
          declare_all_after d before after (codes ++ (entry ∷ [])) (rw has_code-append (rw h)),
          declare_all,
        ))
]

-- Two declarations with one reason, wherever they stand, make the package panic when it is loaded.
pub declare_all_twice :
    (c d : Declared) (before between after : List Declared) (codes : Codes)
    → reason_of c ≡ reason_of d
    → declare_all (before ++ (c ∷ (between ++ (d ∷ after)))) codes ≡ none
unfolding declare_all
declare_all_twice c d [] between after codes same =
    elim (Bool-cases (has_code (reason_of c) codes)) [
      | inl e ↦ rw (declare-none c codes e, declare_all)
      | inr e ↦
          let (entry, made, there) = declare-some c codes e in
          let later : has_code (reason_of d) (codes ++ (entry ∷ [])) ≡ true =
            rw (has_code-append, ← same, e) there in
          rw (made, declare_all) (rw (declare_all_after d between after _ later, declare_all))
    ]
declare_all_twice c d (x ∷ before) between after codes same =
    elim (Bool-cases (has_code (reason_of x) codes)) [
      | inl e ↦ rw (declare-none x codes e, declare_all)
      | inr e ↦
          let (entry, made, _) = declare-some x codes e in
          rw (made, declare_all)
            (rw (
              declare_all_twice c d before between after (codes ++ (entry ∷ [])) same,
              declare_all,
            ))
    ]

-- If the package loads, each declaration has made its error: status 400, or the status that it
-- sets.
pub declare_all_errors :
    (ds : List Declared) (codes : Codes) {codes' : Codes} {es : List Error}
    → declare_all ds codes ≡ some (codes', es)
    → es ≡ map declared_error ds
unfolding declare_all
declare_all_errors [] codes h = ground arith
declare_all_errors (d ∷ ds) codes h = elim (Bool-cases (has_code (reason_of d) codes)) [
  | inl e ↦ ground (arith, declare-none d codes e)
  | inr e ↦
      let (entry, made, _) = declare-some d codes e in
      elim (Option-cases (declare_all ds (codes ++ (entry ∷ [])))) [
        | inl n ↦ ground (arith, made)
        | inr ((codes'', es'), r) ↦
            ground (arith, made, declare_all_errors ds (codes ++ (entry ∷ [])) r)
      ]
]
