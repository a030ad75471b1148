-- ===== src/Token/Examples.antt =====
-- A table in memory with one token, a cache before it, and the calls of the domain.
use goddd.Common.{◌≡◌, ◌≢◌, ◌⊎◌, refl, true, false, List, [], ◌∷◌, Option, none, some, arith}
use goddd.Common.Assoc.{lookup}
use goddd.Common.Int.{ℤ, pos, ltb_ℤ, ◌+ℤ◌}
use goddd.Common.Text.{Bytes, codes, hex, hex_digit, same, bytes_discrete}
use goddd.Conc.Cacher.{Cacher}
use goddd.Conc.SyncMap.{Boxing}
use goddd.Conc.SyncMap.View.{view}
use goddd.Conc.TtlMap.{TtlMap, Cleaner, after}
use goddd.Conc.TtlMap.Live.{live, live_of, value_at}
use goddd.Conc.TtlCache.{TtlCache, Conversion, assign_by_reflect, get, set, set_nx}
use goddd.Conc.TtlCache.Laws.{ttl_cacher, get-set}
use goddd.Token.{Token, Bulk, by_hash}
use goddd.Token.OneRow.{one_row, delete_in, row_of, read_of}
use goddd.Token.Cached
use goddd.Token.Cached.{Cache, from_store, full_key}
use goddd.Conc.SyncMap
use goddd.Conc.TtlMap
use goddd.Conc.TtlCache
use goddd.Token.Cached.Coherent.{IsCoherent, IsCoherent-later, empty-IsCoherent}
use goddd.Token.Cached.Runs.{Op, op_get, op_update, op_bulk, run, IsRun, run-IsCoherent}
use goddd.Token.Sessions.{Core, judge, Mark, mark, mark_boxing, valid, valid_token, delete_token}
use goddd.Token.Sessions.Laws.{valid_sound, valid_after_delete}

abbrev a_token : Token
a_token = record {
  id = 1;
  user_id = codes "u";
  scope = codes "s";
  hash = codes "h";
  created_at = pos 0;
  updated_at = pos 0;
  expired_at = pos 1000;
  reason = [];
}

no_nil : (t : Token) → false ≡ true → t ≡ a_token
no_nil t h = cc

-- Tokens are stored as pointers that are not nil, and read back unchanged.
abbrev tokens : Boxing Token
tokens = record { zero_value = a_token; is_nil = λ t. false; nil_is_zero = no_nil }

abbrev through : Conversion Token Token
through = record {
  is_pointer = true;
  same_type = λ t. none;
  convert = λ t. none;
  marshal = λ t. some t.hash;
  unmarshal = λ text. some a_token;
}

abbrev hour : Cacher Token Token
hour = ttl_cacher tokens through

abbrev nothing : TtlMap Bytes Token
nothing = record {
  values = record { entries = [] };
  exp = record { entries = [] };
  cleaner = Cleaner.stopped;
}

abbrev empty_cache : TtlCache Token
empty_cache = record { map = nothing; ttl = pos 3_600 }

abbrev start : Cache one_row hour
start = record { store = some a_token; token = empty_cache }

start_holds_nothing : (later : ℤ) (k : Bytes) → live bytes_discrete tokens later nothing k ≡ none
unfolding live live_of view lookup
start_holds_nothing later k = refl

start-IsCoherent : IsCoherent one_row hour (pos 0) start
start-IsCoherent = empty-IsCoherent one_row hour (pos 0) start start_holds_nothing

later_time : Token → Token
later_time t = record t { expired_at = pos 2000 }

later_time_keeps : (t : Token) → (later_time t).hash ≡ t.hash
unfolding later_time
later_time_keeps t = refl

-- The row is read, changed and read again, and its user is logged out.
abbrev day : List (ℤ × Op)
day =
    (pos 10, op_get (codes "h"))
    ∷ (pos 20, op_update (by_hash (codes "h")) later_time)
    ∷ (pos 30, op_get (codes "h"))
    ∷ (pos 40, op_bulk (Bulk.delete_all_for_user (codes "s") (codes "u")))
    ∷ []

day-IsRun : IsRun one_row hour (pos 0) day start
day-IsRun =
    (omega arith, tt, (omega arith, later_time_keeps, (omega arith, tt, (omega arith, tt, tt))))

run-IsCoherent_example : IsCoherent one_row hour (pos 40) (run one_row hour day start)
run-IsCoherent_example = run-IsCoherent one_row hour day (pos 0) start day-IsRun start-IsCoherent

in_time : after (pos 100) (pos 5 +ℤ pos 3_600) ≡ false
unfolding after
in_time = refl

get-set_example :
    (get tokens through
      (codes "k")
      (pos 100)
      (set tokens (codes "k") a_token (pos 5) empty_cache)).1
    ≡ assign_by_reflect through a_token
get-set_example = get-set tokens through (codes "k") a_token (pos 5) (pos 100) empty_cache in_time

-- The hash of a text is the text here.
plain_hash : Bytes → Bytes
plain_hash text = text

abbrev marked : TtlMap Bytes Mark
marked = record {
  values = record { entries = (codes "h", some mark) ∷ [] };
  exp = record { entries = (codes "h", some (pos 50)) ∷ [] };
  cleaner = Cleaner.stopped;
}

abbrev core : Core one_row hour plain_hash
core = record { store = start; data_map = marked }

first_valid : (valid one_row hour plain_hash (codes "h") (pos 7) core).1 ≡ valid_token
unfolding valid judge Cached.get from_store TtlCache.get TtlMap.load SyncMap.load after plain_hash
    hex hex_digit same full_key lookup row_of read_of
first_valid = refl

valid_sound_example :
    (t u : Token) × (one_row.row (some a_token) (codes "h") ≡ some t)
    × ((u ≡ t) ⊎ (hour.converted t ≡ some u))
    × (ltb_ℤ u.expired_at (pos 7) ≡ false)
unfolding plain_hash
valid_sound_example =
    valid_sound one_row hour plain_hash (codes "h") (pos 7) core
      (IsCoherent-later one_row hour (pos 0) (pos 7) start (omega arith) start-IsCoherent)
      first_valid

row_deleted :
    ◌≡◌ {A = Option Token × Option Token} (delete_in 1 (some a_token)) (none, some a_token)
unfolding delete_in
row_deleted = refl

valid_after_delete_example :
    (valid one_row hour plain_hash
      (codes "h")
      (pos 9)
      (delete_token one_row hour plain_hash 1 core).0).1
    ≢ valid_token
unfolding plain_hash
valid_after_delete_example =
    valid_after_delete one_row hour plain_hash (codes "h") 1 (pos 0) (pos 9) core none a_token
      start-IsCoherent (omega arith) row_deleted refl

has_mark : value_at bytes_discrete mark_boxing marked (codes "h") ≡ some mark
unfolding view lookup mark_boxing bytes_discrete same
has_mark = refl
