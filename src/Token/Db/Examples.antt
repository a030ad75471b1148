-- ===== src/Token/Db/Examples.antt =====
-- A table with at most one token.
use goddd.Token.{Token}
use goddd.Orm.OneRow.{one_row}
use goddd.Common.Int.{pos}
use goddd.Common.Text.{hex_digit, hex, same, codes}
use goddd.Orm.Gorm.{Gorm}
use goddd.Token.Db.Fails.{Deleted, Updated, Created, unchanged_by_error, Replies}
use goddd.Token.Db.{
  update_token, create_token, no_token, delete_token, TokenInput, delete_expired, Tokens,
}
use goddd.Common.{ap, ◌==◌, sym, ◌≡◌, ◌&&◌, [], Option, List, ◌∷◌, some, none, refl, ℕ}

abbrev users : Gorm Token
users = one_row (λ t. same t.hash [])

-- Each statement deletes the token, or finds nothing.
abbrev statement : Option Token → Option Token × (List Token × Option ℕ)
statement none = (none, ([], some 7))
statement (some t) = (none, (t ∷ [], none))

statement_fails :
    (rows : List Token) (e : ℕ) (d d' : Option Token) → statement d ≡ (d', (rows, some e)) → d' ≡ d
statement_fails rows e none d' h = sym (ap (λ o. o.0) h)
statement_fails rows e (some t) d' h = let n = ap (λ o. o.1.1) h in cc

abbrev rows : Tokens users
rows = record {
  where_id = λ i q t. q t && (t.id == i);
  where_hash = λ h q t. q t && same t.hash h;
  newest_first = λ q. q;
  run_statement = λ s d. statement d;
  statement_fails = λ s. statement_fails;
}

abbrev copied : TokenInput → Token → Token
copied i t = record t {
  user_id = i.user_id;
  scope = i.scope;
  hash = i.hash;
  expired_at = i.expired_at;
}

abbrev input : TokenInput
input = record { user_id = codes "u"; scope = codes "s"; hash = codes "h"; expired_at = pos 1_000 }

abbrev old : Token
old = record no_token { id = 7; hash = codes "g" }

unchanged_by_error_example :
    Replies users rows copied
      (Created users rows copied input (pos 9) (some old))
      (some old)
      (create_token users rows copied input (pos 9) (some old))
    × Replies users rows copied
        (Updated users rows copied input 7 (some old))
        (some old)
        (update_token users rows copied input 7 (some old))
    × Replies users rows copied
        (Deleted users rows copied 7 (some old))
        (some old)
        (delete_token users rows copied 7 (some old))
unchanged_by_error_example = unchanged_by_error users rows copied input 7 (pos 9) (some old)

keys_expired : (delete_expired users rows copied (pos 5) (some old)).1 ≡ some (codes "67" ∷ [])
unfolding delete_expired hex hex_digit
keys_expired = refl
