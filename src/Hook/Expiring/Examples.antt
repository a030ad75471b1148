-- ===== src/Hook/Expiring/Examples.antt =====
-- A function that counts its calls, remembered for 60.
use goddd.Common.{ℕ, ◌+◌, ◌*◌, ◌≡◌, refl, true, false, [], Option, none, ℕ_discrete}
use goddd.Common.Assoc.{lookup}
use goddd.Common.Int.{pos, ◌+ℤ◌}
use goddd.Conc.SyncMap
use goddd.Conc.SyncMap.{Boxing}
use goddd.Conc.TtlMap
use goddd.Conc.TtlMap.{TtlMap, Cleaner, after, store}
use goddd.Hook.Expiring.{use_ttl_cache}

no_nil : (n : ℕ) → false ≡ true → n ≡ 0
no_nil n h = cc

abbrev numbers : Boxing ℕ
numbers = record { zero_value = 0; is_nil = λ n. false; nil_is_zero = no_nil }

counted : ℕ → ℕ → ℕ × (ℕ × Option ℕ)
counted k s = (s + 1, (k * 2, none))

abbrev nothing : TtlMap ℕ ℕ
nothing = record {
  values = record { entries = [] };
  exp = record { entries = [] };
  cleaner = Cleaner.stopped;
}

abbrev one : TtlMap ℕ ℕ
one = store ℕ_discrete numbers 3 6 (pos 60) (pos 5) nothing

first_call :
    use_ttl_cache ℕ_discrete numbers (pos 60) counted 3 (pos 5) (nothing, 0)
    ≡ ((one, 1), (6, false, none))
unfolding use_ttl_cache counted TtlMap.load SyncMap.load lookup
first_call = refl

in_time : after (pos 40) (pos 5 +ℤ pos 60) ≡ false
unfolding after
in_time = refl
