-- ===== src/Conc/TtlMap/Synced.antt =====
-- Called one after the other, the operations keep the two maps under the same keys.
use goddd.Common.{
  Bool-cases, ◌≡◌, refl, Bool, true, false, Option-cases, inl, inr, List, [], ◌∷◌, Option, none,
  some, arith,
}
use goddd.Common.Int.{ℤ, ◌+ℤ◌}
use goddd.Common.Assoc.{lookup, IsDistinct}
use goddd.Conc.SyncMap
use goddd.Conc.SyncMap.{Boxing}
use goddd.Conc.SyncMap.View.{load-view, view-store, view-delete, view-clear_at, load_or_store-view}
use goddd.Conc.SyncMap.Size.{store-IsMap, delete-IsMap, clear-IsMap}
use goddd.Conc.TtlMap.{
  after, TtlMap, Cleaner, time_boxing, new_ttl_map, store, load, load_or_store, delete, clear, tick,
  set_ticker_cleanup, switch_fixed_time_clear, dispose, fixed_time_round,
}
use goddd.Conc.TtlMap.Live.{
  live, live_of, exp_at, value_at, gone, load_state, tick_lem, tick-IsDistinct,
}

abbrev pub is_some : {A : Type 0} → Option A → Bool
is_some none = false
is_some (some x) = true

module _ {K V : Type 0} (dec : Discrete K) (b : Boxing V) where
  pub record IsSynced (m : TtlMap K V) : Type 0 where
    pub distinct_exp : IsDistinct dec m.exp.entries
    pub distinct_values : IsDistinct dec m.values.entries
    pub same_keys : (k : K) → is_some (exp_at dec b m k) ≡ is_some (value_at dec b m k)

  -- A call, or a round of a background goroutine, with the time of the clock.
  pub data Call : Type 0 where
    call_store : K → V → ℤ → Call
    call_load : K → Call
    call_load_or_store : K → V → ℤ → Call
    call_delete : K → Call
    call_clear : Call
    call_dispose : Call
    call_set_ticker : ℤ → Call
    call_set_fixed_time : Call
    cleaner_tick : Call
    cleaner_fixed_time : Call

  unfoldable pub step : ℤ → Call → TtlMap K V → TtlMap K V
  step now (call_store k v ttl) m = store dec b k v ttl now m
  step now (call_load k) m = (load dec b k now m).0
  step now (call_load_or_store k v ttl) m = (load_or_store dec b k v ttl now m).0
  step now (call_delete k) m = delete dec b k m
  step now call_clear m = clear dec b m
  step now call_dispose m = dispose dec b m
  step now (call_set_ticker interval) m = set_ticker_cleanup interval m
  step now call_set_fixed_time m = switch_fixed_time_clear m
  step now cleaner_tick m = tick dec b now m
  step now cleaner_fixed_time m = fixed_time_round dec b m

  unfoldable pub run : List (ℤ × Call) → TtlMap K V → TtlMap K V
  run [] m = m
  run ((now, c) ∷ calls) m = run calls (step now c m)

  store-IsSynced :
      (k : K) (v : V) (ttl now : ℤ) (m : TtlMap K V)
      → IsSynced m
      → IsSynced (store dec b k v ttl now m)
  unfolding store
  store-IsSynced k v ttl now m s = record {
    distinct_exp = store-IsMap dec time_boxing k (now +ℤ ttl) m.exp s.distinct_exp;
    distinct_values = store-IsMap dec b k v m.values s.distinct_values;
    same_keys = λ j. ground (
      arith,
      s.same_keys j,
      view-store dec time_boxing k (now +ℤ ttl) m.exp j,
      view-store dec b k v m.values j,
    );
  }

  delete-IsSynced : (k : K) (m : TtlMap K V) → IsSynced m → IsSynced (delete dec b k m)
  unfolding delete
  delete-IsSynced k m s = record {
    distinct_exp = delete-IsMap dec time_boxing k m.exp s.distinct_exp;
    distinct_values = delete-IsMap dec b k m.values s.distinct_values;
    same_keys = λ j. ground (
      arith,
      s.same_keys j,
      view-delete dec time_boxing k m.exp j,
      view-delete dec b k m.values j,
    );
  }

  load_or_store-IsSynced :
      (k : K) (v : V) (ttl now : ℤ) (m : TtlMap K V)
      → IsSynced m
      → IsSynced (load_or_store dec b k v ttl now m).0
  unfolding load_or_store
  load_or_store-IsSynced k v ttl now m s = elim (Option-cases (value_at dec b m k)) [
    | inl e ↦ rw (load_or_store-view, e) (unfold store in store-IsSynced k v ttl now m s)
    | inr (w, e) ↦
        rw (load_or_store-view, e)
          (record {
            distinct_exp = store-IsMap dec time_boxing k (now +ℤ ttl) m.exp s.distinct_exp;
            distinct_values = s.distinct_values;
            same_keys = λ j.
                ground (arith, e, s.same_keys j, view-store dec time_boxing k (now +ℤ ttl) m.exp j);
          })
  ]

  clear-IsSynced : (m : TtlMap K V) → IsSynced m → IsSynced (clear dec b m)
  unfolding clear
  clear-IsSynced m s = record {
    distinct_exp = clear-IsMap dec m.exp s.distinct_exp;
    distinct_values = clear-IsMap dec m.values s.distinct_values;
    same_keys = λ j. rw (view-clear_at dec time_boxing m.exp j, view-clear_at dec b m.values j);
  }

  gone-same :
      {A B : Type 0} (now : ℤ) (t : Option ℤ) (x : Option A) (y : Option B)
      → is_some x ≡ is_some y
      → is_some (gone dec b now t x) ≡ is_some (gone dec b now t y)
  unfolding gone
  gone-same now none x y h = h
  gone-same now (some e) x y h = ground arith

  with_cleaner : {m : TtlMap K V} {c : Cleaner} → IsSynced m → IsSynced (record m { cleaner = c })
  with_cleaner s = record {
    distinct_exp = s.distinct_exp;
    distinct_values = s.distinct_values;
    same_keys = s.same_keys;
  }

  load-IsSynced : (k : K) (now : ℤ) (m : TtlMap K V) → IsSynced m → IsSynced (load dec b k now m).0
  load-IsSynced k now m s = elim (load_state dec b k now m) [
    | inl same ↦ rw same s
    | inr (deleted, _, _) ↦ rw deleted (delete-IsSynced k m s)
  ]

  tick-IsSynced : (now : ℤ) (m : TtlMap K V) → IsSynced m → IsSynced (tick dec b now m)
  tick-IsSynced now m s =
      let (d_exp, d_values) = tick-IsDistinct dec b now m (s.distinct_exp, s.distinct_values) in
      record { distinct_exp = d_exp; distinct_values = d_values; same_keys = λ j. ticked j }
    where
      ticked :
          (j : K)
          → is_some (exp_at dec b (tick dec b now m) j)
            ≡ is_some (value_at dec b (tick dec b now m) j)
      ticked j =
          rw ((tick_lem dec b now m j s.distinct_exp).0, (tick_lem dec b now m j s.distinct_exp).1)
            (gone-same now (exp_at dec b m j) (exp_at dec b m j) (value_at dec b m j)
              (s.same_keys j))

  step-IsSynced : (now : ℤ) (c : Call) (m : TtlMap K V) → IsSynced m → IsSynced (step now c m)
  unfolding step dispose set_ticker_cleanup switch_fixed_time_clear fixed_time_round
  step-IsSynced now (call_store k v ttl) m s = store-IsSynced k v ttl now m s
  step-IsSynced now (call_load k) m s = load-IsSynced k now m s
  step-IsSynced now (call_load_or_store k v ttl) m s = load_or_store-IsSynced k v ttl now m s
  step-IsSynced now (call_delete k) m s = delete-IsSynced k m s
  step-IsSynced now call_clear m s = clear-IsSynced m s
  step-IsSynced now call_dispose m s = with_cleaner (clear-IsSynced m s)
  step-IsSynced now (call_set_ticker interval) m s = with_cleaner s
  step-IsSynced now call_set_fixed_time m s = with_cleaner s
  step-IsSynced now cleaner_tick m s = tick-IsSynced now m s
  step-IsSynced now cleaner_fixed_time m s = clear-IsSynced m s

  run_keeps : (calls : List (ℤ × Call)) (m : TtlMap K V) → IsSynced m → IsSynced (run calls m)
  unfolding run
  run_keeps [] m s = s
  run_keeps ((now, c) ∷ calls) m s = run_keeps calls (step now c m) (step-IsSynced now c m s)

  -- After any sequence of calls and rounds of the background goroutines, a key has a value exactly
  -- when it has an expiry time, and neither map holds a key twice.
  pub run-IsSynced : (calls : List (ℤ × Call)) → IsSynced (run calls new_ttl_map)
  unfolding new_ttl_map SyncMap.new_map SyncMap.View.view lookup
  run-IsSynced calls =
      run_keeps calls new_ttl_map
        (record { distinct_exp = tt; distinct_values = tt; same_keys = λ k. refl })

  -- A `Load` that finds nothing leaves no value under its key.
  pub value_at-load :
      (k : K) (now : ℤ) (m : TtlMap K V)
      → IsSynced m
      → live dec b now m k ≡ none
      → value_at dec b (load dec b k now m).0 k ≡ none
  unfolding load live live_of delete
  value_at-load k now m s h = elim (Option-cases (exp_at dec b m k)) [
    | inl e ↦
        (let same = s.same_keys k in
          let kept = Option-cases (value_at dec b m k) in
          ground (arith, load-view dec time_boxing k m.exp, kept, same, e))
    | inr (t, e) ↦ elim (Bool-cases (after now t)) [
      | inl over ↦ ground (arith, load-view dec time_boxing k m.exp, view-delete dec b k m.values k)
      | inr there ↦ ground (arith, load-view dec time_boxing k m.exp, h)
    ]
  ]
