-- ===== src/Hook/Caching/Examples.antt =====
-- A function that counts its calls and fails at 0, wrapped.
use goddd.Common.{
  ℕ, ◌+◌, ◌*◌, ◌==◌, ◌≡◌, refl, false, [], ◌∷◌, Option, none, some, ℕ_discrete, if◌then◌else◌,
}
use goddd.Common.Assoc.{lookup, insert}
use goddd.Hook.Caching.{use_cache}

counted : ℕ → ℕ → ℕ × (ℕ × Option ℕ)
counted k s = (s + 1, (k * 2, if k == 0 then some 404 else none))

first_call : use_cache ℕ_discrete counted 3 ([], 0) ≡ (((3, 6) ∷ [], 1), (6, false, none))
unfolding use_cache counted lookup insert
first_call = refl
