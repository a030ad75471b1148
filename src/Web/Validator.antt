-- ===== src/Web/Validator.antt =====
-- pkg/web/vaild.go: a `Validator` collects the messages of the checks that fail, one for each key.
pub mod First
mod Examples
use goddd.Common.Assoc.{insert, lookup}
use goddd.Common.Text.{bytes_discrete, Bytes}
use goddd.Common.{not, ◌==◌, ◌++◌, if◌then◌else◌, map, length, [], Bool, List, ◌∷◌, some, none, ℕ}

pub record Validator : Type 0 where
  pub errors : List (Bytes × Bytes)

pub new_validator : Validator
new_validator = record { errors = [] }

pub valid : Validator → Bool
valid v = length v.errors == 0

pub add_error : Bytes → Bytes → Validator → Validator
add_error key message v = elim (lookup bytes_discrete key v.errors) [
  | some m ↦ v
  | none ↦ record { errors = insert bytes_discrete key message v.errors }
]

pub check : Bool → Bytes → Bytes → Validator → Validator
unfolding add_error
check ok key message v = if not ok then add_error key message v else v

pub line_of : Bytes × Bytes → Bytes
line_of (k, m) = k ++ (b' ' ∷ m)

pub list : Validator → List Bytes
unfolding line_of
list v = map line_of v.errors

pub result : Validator → Bool × List Bytes
unfolding valid list
result v = (valid v, list v)

-- The arguments of a call of `Check`, and a chain of such calls.
pub record Checked : Type 0 where
  pub ok : Bool
  pub key : Bytes
  pub message : Bytes

pub check_all : List Checked → Validator → Validator
unfolding check
check_all [] v = v
check_all (c ∷ cs) v = check_all cs (check c.ok c.key c.message v)
