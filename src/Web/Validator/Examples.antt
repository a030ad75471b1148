-- ===== src/Web/Validator/Examples.antt =====
-- Three checks, two of which fail for one key.
use goddd.Web.Validator.First.{result-check_all, first_failing, all_ok}
use goddd.Common.Assoc.{insert, lookup}
use goddd.Common.Text.{Bytes, contains, same, bytes_discrete, codes}
use goddd.Web.Validator.{new_validator, Checked, check_all, result}
use goddd.Common.{◌++◌, ◌↔◌, [], ◌≡◌, List, ◌∷◌, some, false, true, refl}

abbrev three_checks : List Checked
three_checks =
    record { ok = false; key = codes "age"; message = codes "is low" }
    ∷ record { ok = true; key = codes "name"; message = codes "is empty" }
    ∷ record { ok = false; key = codes "age"; message = codes "is odd" }
    ∷ []

result-three_checks :
    result (check_all three_checks new_validator) ≡ (false, codes "age is low" ∷ [])
unfolding result check_all lookup new_validator insert bytes_discrete same
result-three_checks = refl

result-check_all_example :
    ((result (check_all three_checks new_validator)).0 ≡ all_ok three_checks)
    × (lookup bytes_discrete (codes "age") (check_all three_checks new_validator).errors
        ≡ first_failing (codes "age") three_checks)
    × ((contains (result (check_all three_checks new_validator)).1 (codes "age is low") ≡ true) ↔ (
        (key message : Bytes) × (first_failing key three_checks ≡ some message)
        × (codes "age is low" ≡ key ++ (b' ' ∷ message))))
result-check_all_example = result-check_all three_checks (codes "age") (codes "age is low")
