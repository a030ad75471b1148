-- ===== src/Conc/TtlMap/Examples.antt =====
-- Runs of the map with expiry, and instances of its theorems.
use mathlib.Core.Option
use goddd.Common.{
  ℕ, ◌≡◌, refl, true, false, List, [], ◌∷◌, none, some, arith, ite, if◌then◌else◌, ℕ_discrete,
}
use goddd.Common.Assoc.{lookup, IsDistinct}
use goddd.Common.Int.{ℤ, pos, ◌+ℤ◌}
use goddd.Conc.SyncMap
use goddd.Conc.SyncMap.{Boxing}
use goddd.Conc.SyncMap.View.{view, answer}
use goddd.Conc.TtlMap.{TtlMap, Cleaner, after, new_ttl_map, store, load, load_or_store}
use goddd.Conc.TtlMap.Live.{exp_at, value_at, live, live-store, load-live, load_or_store_lem}
use goddd.Conc.TtlMap.Synced.{
  IsSynced, run, run-IsSynced, call_store, call_load, call_load_or_store, cleaner_tick, Call,
}

no_nil : (n : ℕ) → false ≡ true → n ≡ 0
no_nil n h = cc

abbrev plain : Boxing ℕ
plain = record { zero_value = 0; is_nil = λ n. false; nil_is_zero = no_nil }

-- Key 1 is over at time 10, key 2 is not.
abbrev two_keys : TtlMap ℕ ℕ
two_keys = record {
  values = record { entries = (1, some 100) ∷ (2, some 200) ∷ [] };
  exp = record { entries = (1, some (pos 5)) ∷ (2, some (pos 50)) ∷ [] };
  cleaner = Cleaner.ticker (pos 1);
}

distinct : IsDistinct ℕ_discrete two_keys.exp.entries
unfolding lookup ℕ_discrete
distinct = (refl, (refl, tt))

load_run : (load ℕ_discrete plain 2 (pos 10) two_keys).1 ≡ (200, true)
unfolding load SyncMap.load lookup ℕ_discrete after
load_run = refl

first_over : exp_at ℕ_discrete plain two_keys 1 ≡ some (pos 5)
unfolding view lookup ℕ_discrete
first_over = refl

is_over : after (pos 10) (pos 5) ≡ true
unfolding after
is_over = refl

not_over : after (pos 10) (pos 10 +ℤ pos 7) ≡ false
unfolding after
not_over = refl

live-store_example :
    live ℕ_discrete plain (pos 12) (store ℕ_discrete plain 1 300 (pos 7) (pos 10) two_keys) 1
    ≡ ite
        (ℕ_discrete 1 1)
        (if after (pos 12) (pos 10 +ℤ pos 7) then none else some 300)
        (live ℕ_discrete plain (pos 12) two_keys 1)
live-store_example = live-store ℕ_discrete plain 1 1 300 (pos 7) (pos 10) (pos 12) two_keys

load-live_example :
    ((load ℕ_discrete plain 1 (pos 10) two_keys).1
      ≡ answer ℕ_discrete plain (live ℕ_discrete plain (pos 10) two_keys 1))
    × (live ℕ_discrete plain (pos 20) (load ℕ_discrete plain 1 (pos 10) two_keys).0 2
        ≡ live ℕ_discrete plain (pos 20) two_keys 2)
load-live_example = load-live ℕ_discrete plain 1 2 (pos 10) (pos 20) two_keys (omega arith)

load_or_store_lem_example :
    ((load_or_store ℕ_discrete plain 1 300 (pos 7) (pos 10) two_keys).1
      ≡ elim (value_at ℕ_discrete plain two_keys 1) [ none ↦ (300, false) | some w ↦ (w, true) ])
    × ((later : ℤ) (j : ℕ)
        → live ℕ_discrete plain later
            (load_or_store ℕ_discrete plain 1 300 (pos 7) (pos 10) two_keys).0
            j
          ≡ ite
              (ℕ_discrete 1 j)
              (if after later (pos 10 +ℤ pos 7)
                then none
                else some (Option.get_or (value_at ℕ_discrete plain two_keys 1) 300))
              (live ℕ_discrete plain later two_keys j))
load_or_store_lem_example = load_or_store_lem ℕ_discrete plain 1 300 (pos 7) (pos 10) two_keys

abbrev calls : List (ℤ × Call ℕ_discrete plain)
calls =
    (pos 1, call_store 1 100 (pos 4))
    ∷ (pos 3, call_load_or_store 2 200 (pos 4))
    ∷ (pos 6, cleaner_tick)
    ∷ (pos 9, call_load 2)
    ∷ []

run-IsSynced_example : IsSynced ℕ_discrete plain (run ℕ_discrete plain calls new_ttl_map)
run-IsSynced_example = run-IsSynced ℕ_discrete plain calls
