-- ===== src/Conc/Cacher.antt =====
-- pkg/conc/ttl_cache.go: the interface `Cacher`, as a record of operations and of what its clients
-- rely on. A key that is not found is `ErrCacheNotFound`, which is `none` of `get` here; so is an
-- error of the conversion. `S` is what is stored and `D` what `Get` assigns to its destination.
use goddd.Common.{◌≡◌, ◌≢◌, ◌⊎◌, Option, none, some}
use goddd.Common.Int.{ℤ, ◌≤ℤ◌}
use goddd.Common.Text.{Bytes}

-- `cached later c k` is what the key holds at a time. An entry that is held was put there by `set`
-- or `set_nx` under its key, and not deleted since; nothing says how long it stays.
pub record Cacher (S D : Type 0) : Type 1 where
  pub Cache : Type 0
  pub cached : ℤ → Cache → Bytes → Option S
  pub converted : S → Option D
  pub get : Bytes → ℤ → Cache → Cache × Option D
  pub set : Bytes → S → ℤ → Cache → Cache
  pub set_nx : Bytes → S → ℤ → Cache → Cache
  pub del : Bytes → Cache → Cache
  pub get_cached :
      (k : Bytes) (now : ℤ) (c : Cache)
      → (get k now c).1 ≡ elim (cached now c k) [ none ↦ none | some s ↦ converted s ]
  pub get_keeps :
      (k j : Bytes) (s : S) (now later : ℤ) (c : Cache)
      → now ≤ℤ later
      → cached later (get k now c).0 j ≡ some s
      → cached later c j ≡ some s
  pub set_cached :
      (k j : Bytes) (s t : S) (now later : ℤ) (c : Cache)
      → cached later (set k s now c) j ≡ some t
      → ((k ≡ j) × (t ≡ s)) ⊎ ((k ≢ j) × (cached later c j ≡ some t))
  pub set_nx_cached :
      (k j : Bytes) (s t : S) (now later : ℤ) (c : Cache)
      → now ≤ℤ later
      → cached later (set_nx k s now c) j ≡ some t
      → ((k ≡ j) × (t ≡ s)) ⊎ (cached later c j ≡ some t)
  pub del_cached :
      (k j : Bytes) (t : S) (later : ℤ) (c : Cache)
      → cached later (del k c) j ≡ some t
      → (k ≢ j) × (cached later c j ≡ some t)
