-- ===== src/Reason/Examples.antt =====
-- The package's own declarations, and instances of the theorems on errors.
use goddd.Common.{ℕ, ◌≡◌, refl, List, [], ◌∷◌, Option, none, some, length}
use goddd.Reason.{
  Error, Codes, Declared, plain, status, declare, declare_all, new_error, has_code, common_errors,
  set_http_status,
}

abbrev a_failure : Error
a_failure = record { reason = "ErrStore"; msg = "failed"; details = []; http_status = 400 }

-- The package loads: no reason of err.go is declared twice.
is_loaded : Option (Codes × List Error) → ℕ
is_loaded none = 0
is_loaded (some (codes, es)) = length es

common_errors_load : is_loaded (declare_all common_errors []) ≡ 22
unfolding declare_all declare new_error has_code is_loaded set_http_status
common_errors_load = refl

abbrev two : List Declared
two = plain "A" "a" ∷ status "B" "b" 401 ∷ []

abbrev two_errors : List Error
two_errors =
    record { reason = "A"; msg = "a"; details = []; http_status = 400 }
    ∷ record { reason = "B"; msg = "b"; details = []; http_status = 401 }
    ∷ []

two_load : declare_all two [] ≡ some (("A", "a") ∷ ("B", "b") ∷ [], two_errors)
unfolding declare_all declare new_error has_code set_http_status
two_load = refl
