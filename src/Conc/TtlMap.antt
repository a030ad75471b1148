-- ===== src/Conc/TtlMap.antt =====
-- pkg/conc/ttl_map.go: `TTLMap`, two maps under the same keys, the values and their expiry times.
-- A time and a duration are integers (nanoseconds); the clock's reading is the argument `now`.
-- The goroutine that cleans up is `Cleaner`: `SetTickerCleanup` and `SwichFixedTimeClear` cancel the
-- running one and start another.
pub mod Live
pub mod Synced
pub mod Race
mod Examples
use goddd.Common.{ℕ, ◌≡◌, Bool, true, false, not, arith, if◌then◌else◌}
use goddd.Common.Int.{ℤ, pos, ◌+ℤ◌, ◌≤ℤ◌, ltb_ℤ, leb_ℤ}
use goddd.Conc.SyncMap
use goddd.Conc.SyncMap.{Boxing, Map}

abbrev pub second : ℤ
second = pos 1_000_000_000

pub no_nil_time : (t : ℤ) → false ≡ true → t ≡ pos 0
no_nil_time t h = cc

-- A time is a struct, so no time is a nil interface.
abbrev pub time_boxing : Boxing ℤ
time_boxing = record { zero_value = pos 0; is_nil = λ t. false; nil_is_zero = no_nil_time }

-- What runs in the background: nothing, a ticker with its interval, or the clearing at fixed times.
pub data Cleaner : Type 0 where
  stopped : Cleaner
  ticker : ℤ → Cleaner
  fixed_time : Cleaner

pub record TtlMap (K V : Type 0) : Type 0 where
  pub values : Map K V
  pub exp : Map K ℤ
  pub cleaner : Cleaner

-- `t.After(u)`
unfoldable pub after : ℤ → ℤ → Bool
after t u = ltb_ℤ u t

-- What `tickerCleanup` makes of its interval.
pub tick_interval : ℤ → ℤ
tick_interval interval = if leb_ℤ interval (pos 0) then second else interval

-- Time does not go back: what is over stays over.
pub after_mono : (t u later : ℤ) → after t u ≡ true → t ≤ℤ later → after later u ≡ true
unfolding after
after_mono t u later h le = ground arith

module _ {K V : Type 0} where
  pub new_ttl_map : TtlMap K V
  unfolding tick_interval
  new_ttl_map = record {
    values = SyncMap.new_map;
    exp = SyncMap.new_map;
    cleaner = ticker (tick_interval (pos 0));
  }

  pub set_ticker_cleanup : ℤ → TtlMap K V → TtlMap K V
  unfolding tick_interval
  set_ticker_cleanup interval m = record m { cleaner = ticker (tick_interval interval) }

  pub switch_fixed_time_clear : TtlMap K V → TtlMap K V
  switch_fixed_time_clear m = record m { cleaner = fixed_time }

  pub len : TtlMap K V → ℕ
  len m = SyncMap.len m.values

  pub range {κ} : {S : Type κ} → Boxing V → (K → V → S → S × Bool) → TtlMap K V → S → S
  range b f m s = SyncMap.range b f m.values s

module _ {K V : Type 0} (dec : Discrete K) (b : Boxing V) where
  pub store : K → V → ℤ → ℤ → TtlMap K V → TtlMap K V
  store k v ttl now m = record m {
    values = SyncMap.store dec b k v m.values;
    exp = SyncMap.store dec time_boxing k (now +ℤ ttl) m.exp;
  }

  unfoldable pub delete : K → TtlMap K V → TtlMap K V
  delete k m = record m {
    values = SyncMap.delete dec b k m.values;
    exp = SyncMap.delete dec time_boxing k m.exp;
  }

  unfoldable pub load : K → ℤ → TtlMap K V → TtlMap K V × (V × Bool)
  unfolding delete
  load k now m =
      let (exp_at, present) = SyncMap.load dec time_boxing k m.exp in
      if not present
      then (m, (b.zero_value, false))
      else if after now exp_at
      then (delete k m, (b.zero_value, false))
      else (m, SyncMap.load dec b k m.values)

  pub load_or_store : K → V → ℤ → ℤ → TtlMap K V → TtlMap K V × (V × Bool)
  load_or_store k v ttl now m =
      let exp' = SyncMap.store dec time_boxing k (now +ℤ ttl) m.exp in
      let (values', r) = SyncMap.load_or_store dec b k v m.values in
      (record m { values = values'; exp = exp' }, r)

  pub clear : TtlMap K V → TtlMap K V
  clear m = record m { values = SyncMap.clear dec m.values; exp = SyncMap.clear dec m.exp }

  -- `Dispose` clears the map and cancels its goroutine.
  pub dispose : TtlMap K V → TtlMap K V
  unfolding clear
  dispose m = record (clear m) { cleaner = stopped }

  -- One round of `tickerCleanup`: each key whose time is over is deleted.
  pub clean_key : ℤ → K → ℤ → TtlMap K V → TtlMap K V × Bool
  clean_key now k exp_at m = (if after now exp_at then delete k m else m, true)

  pub tick : ℤ → TtlMap K V → TtlMap K V
  unfolding clean_key
  tick now m = SyncMap.range time_boxing (clean_key now) m.exp m

  -- One round of `fixedTimeCleanup`.
  pub fixed_time_round : TtlMap K V → TtlMap K V
  unfolding clear
  fixed_time_round m = clear m
