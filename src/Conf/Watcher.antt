-- ===== src/Conf/Watcher.antt =====
-- internal/conf/watcher.go: the configuration is read again when its file changes. What each second
-- brings is a `Round`: whether the context ends, the times of the file that os.Stat gives before and
-- after the pause, where `none` is an error, and what the file then parses as.
pub mod Reload
mod Examples
use goddd.Common.{
  not, ltb, if◌then◌else◌, ◌||◌, [], Option, Bool, List, ◌∷◌, some, none, false, true, ℕ,
}

-- A `Bootstrap`: the part `Runtime`, which is not in the file, and the rest.
pub record Bootstrap (Runtime Rest : Type 0) : Type 0 where
  pub runtime : Runtime
  pub rest : Rest

pub record Round (Runtime Rest : Type 0) : Type 0 where
  pub done_at_tick : Bool
  pub stat : Option ℕ
  pub done_in_pause : Bool
  pub stat_again : Option ℕ
  pub parsed : Option (Bootstrap Runtime Rest)

pub record Watcher (Runtime Rest : Type 0) : Type 0 where
  pub last_mod : ℕ
  pub current : Bootstrap Runtime Rest
  pub returned : Bool

-- A callback sees the configuration in force and the new one, and writes to neither; `true` is an
-- error.
abbrev pub Callback : Type 0 → Type 0 → Type 0
Callback Runtime Rest = Bootstrap Runtime Rest → Bootstrap Runtime Rest → Bool

pub is_after : Option ℕ → ℕ → Bool
is_after none last = false
is_after (some t) last = ltb last t

module _ {Runtime Rest : Type 0} where
  pub callbacks_fail :
      List (Callback Runtime Rest) → Bootstrap Runtime Rest → Bootstrap Runtime Rest → Bool
  callbacks_fail [] old new = false
  callbacks_fail (cb ∷ cbs) old new = cb old new || callbacks_fail cbs old new

  -- From the parse on.
  pub adopt :
      List (Callback Runtime Rest)
      → Option (Bootstrap Runtime Rest)
      → Watcher Runtime Rest
      → Watcher Runtime Rest
  unfolding callbacks_fail
  adopt cbs none w = w
  adopt cbs (some new) w =
      if callbacks_fail cbs w.current new
      then w
      else record w { current = record new { runtime = w.current.runtime } }

  -- From the second stat on.
  pub reload :
      List (Callback Runtime Rest)
      → Round Runtime Rest
      → Watcher Runtime Rest
      → Watcher Runtime Rest
  unfolding adopt
  reload cbs r w = elim r.stat_again [
    | none ↦ w
    | some t ↦ adopt cbs r.parsed (record w { last_mod = t })
  ]

  -- One turn of the loop.
  pub watch_round :
      List (Callback Runtime Rest)
      → Round Runtime Rest
      → Watcher Runtime Rest
      → Watcher Runtime Rest
  unfolding reload is_after
  watch_round cbs r w =
      if w.returned
      then w
      else if r.done_at_tick
      then record w { returned = true }
      else if not (is_after r.stat w.last_mod)
      then w
      else if r.done_in_pause
      then record w { returned = true }
      else reload cbs r w

  pub watch_rounds :
      List (Callback Runtime Rest)
      → List (Round Runtime Rest)
      → Watcher Runtime Rest
      → Watcher Runtime Rest
  unfolding watch_round
  watch_rounds cbs [] w = w
  watch_rounds cbs (r ∷ rs) w = watch_rounds cbs rs (watch_round cbs r w)

  -- `WatchConfig`: without a path, or without the file's time at the start, nothing is watched.
  pub watch_config :
      Bool
      → Option ℕ
      → List (Callback Runtime Rest)
      → List (Round Runtime Rest)
      → Bootstrap Runtime Rest
      → Bootstrap Runtime Rest
  unfolding watch_rounds
  watch_config has_path none cbs rs bc = bc
  watch_config has_path (some t) cbs rs bc =
      if has_path
      then (watch_rounds cbs rs (record { last_mod = t; current = bc; returned = false })).current
      else bc
