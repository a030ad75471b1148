-- ===== src/Web/Limiter/Buckets/Shared.antt =====
-- Which bucket a request takes from.
use mathlib.Core.Option
use goddd.Conc.SyncMap.View.{answer}
use goddd.Web.Limiter.{Bucket}
use goddd.Conc.TtlMap.Live.{live, load-live, load_or_store_lem, value_at}
use goddd.Conc.TtlMap.Synced.{IsSynced, value_at-load}
use goddd.Web.Limiter.Buckets.{
  default_ttl, make_bucket, Buckets, id_rate_limiter, allow_at, Bucket, pointers, Pointer,
}
use goddd.Conc.TtlMap.{TtlMap, load, load_or_store, after}
use goddd.Common.Int.{◌+ℤ◌, ◌≤ℤ◌, ℤ}
use goddd.Common.Text.{bytes_discrete, Bytes}
use goddd.Conc.TtlMap.{TtlMap, load}
use goddd.Common.{
  ◌⊎◌, ◌∙◌, Bool, false, true, if◌then◌else◌, ite, Option, inl, inr, Option-cases, arith, none,
  Option-cases, ap, ◌≡◌, length, [], ◌++◌, set, get_elem?, List, ◌∷◌, inr, inl, some, none, refl, ℕ,
}

get_elem?_last :
    {A : Type 0} (xs : List A) (x : A) → get_elem? (xs ++ (x ∷ [])) (length xs) ≡ some x
get_elem?_last [] x = refl
get_elem?_last (y ∷ xs) x = get_elem?_last xs x

set_last :
    {A : Type 0} (xs : List A) (x y : A) → set (xs ++ (x ∷ [])) (length xs) y ≡ xs ++ (y ∷ [])
set_last [] x y = refl
set_last (z ∷ xs) x y = ap (◌∷◌ z) (set_last xs x y)

module _ (b : Bucket) (new_limiter : b.Limiter) where
  abbrev pub live_at : ℤ → TtlMap Bytes Pointer → Bytes → Option Pointer
  live_at later m j = live bytes_discrete pointers later m j

  -- The identifier has a bucket, which is asked.
  abbrev pub TakesOld : Bytes → ℤ → ℤ → Buckets b.Limiter → ℤ → Bytes → Type 0
  TakesOld id ttl now s later j =
      (p : ℕ) × (l : b.Limiter) × (t : Buckets b.Limiter) × (live_at now s.cache id ≡ some (some p))
      × (get_elem? s.heap p ≡ some l)
      × (id_rate_limiter b new_limiter id ttl now s ≡ some (t, (b.allow l).1))
      × (t.heap ≡ set s.heap p (b.allow l).0)
      × (live_at later t.cache j ≡ live_at later s.cache j)

  -- It has none, and gets a new one.
  abbrev pub TakesNew : Bytes → ℤ → ℤ → Buckets b.Limiter → ℤ → Bytes → Type 0
  TakesNew id ttl now s later j =
      (t : Buckets b.Limiter) × (live_at now s.cache id ≡ none)
      × (id_rate_limiter b new_limiter id ttl now s ≡ some (t, (b.allow new_limiter).1))
      × (t.heap ≡ s.heap ++ ((b.allow new_limiter).0 ∷ []))
      × (live_at later t.cache j
          ≡ ite (bytes_discrete id j)
              (if after later (now +ℤ default_ttl ttl) then none else some (some (length s.heap)))
              (live_at later s.cache j))

  allow_at_lem :
      (p : ℕ) (l : b.Limiter) (s : Buckets b.Limiter)
      → get_elem? s.heap p ≡ some l
      → allow_at b new_limiter (some p) s
        ≡ some (record s { heap = set s.heap p (b.allow l).0 }, (b.allow l).1)
  unfolding allow_at
  allow_at_lem p l s h = ground (arith, h)

  abbrev after_load : Bytes → ℤ → Buckets b.Limiter → Buckets b.Limiter
  after_load id now s = record s { cache = (load bytes_discrete pointers id now s.cache).0 }

  step_of : Bytes → ℤ → ℤ → Buckets b.Limiter → Pointer × Bool → Option (Buckets b.Limiter × Bool)
  step_of id ttl now s r =
      if r.1
      then allow_at b new_limiter r.0 (after_load id now s)
      else make_bucket b new_limiter id (default_ttl ttl) now (after_load id now s)

  id_rate_limiter_step :
      (id : Bytes) (ttl now : ℤ) (s : Buckets b.Limiter) (r : Pointer × Bool)
      → (load bytes_discrete pointers id now s.cache).1 ≡ r
      → id_rate_limiter b new_limiter id ttl now s ≡ step_of id ttl now s r
  unfolding id_rate_limiter step_of
  id_rate_limiter_step id ttl now s r h = ap (step_of id ttl now s) h

  abbrev offered : Bytes → ℤ → ℤ → Buckets b.Limiter → Buckets b.Limiter
  offered id ttl now s = record {
    cache = (load_or_store bytes_discrete pointers id (some (length s.heap)) ttl now s.cache).0;
    heap = s.heap ++ (new_limiter ∷ []);
  }

  made_new :
      (id : Bytes) (ttl now : ℤ) (s : Buckets b.Limiter)
      → value_at bytes_discrete pointers s.cache id ≡ none
      → (load_or_store bytes_discrete pointers id (some (length s.heap)) ttl now s.cache).1
        ≡ (some (length s.heap), false)
  made_new id ttl now s h =
      rw (load_or_store_lem bytes_discrete pointers id (some (length s.heap)) ttl now s.cache).0
        (rw h refl)

  make_bucket_lem :
      (id : Bytes) (ttl now : ℤ) (s : Buckets b.Limiter)
      → value_at bytes_discrete pointers s.cache id ≡ none
      → make_bucket b new_limiter id ttl now s
        ≡ some (
          record {
            cache =
                (load_or_store bytes_discrete pointers id (some (length s.heap)) ttl now s.cache).0;
            heap = s.heap ++ ((b.allow new_limiter).0 ∷ []);
          },
          (b.allow new_limiter).1,
        )
  unfolding make_bucket
  make_bucket_lem id ttl now s h =
      let grown = offered id ttl now s in
      ap (λ r. allow_at b new_limiter r.0 grown) (made_new id ttl now s h)
      ∙ allow_at_lem (length s.heap) new_limiter grown (get_elem?_last s.heap new_limiter)
      ∙ ap (λ x. some (record grown { heap = x }, (b.allow new_limiter).1))
          (set_last s.heap new_limiter (b.allow new_limiter).0)

  old_bucket :
      (id : Bytes) (ttl now : ℤ) (s : Buckets b.Limiter) (p : ℕ) (l : b.Limiter) (later : ℤ)
      (j : Bytes)
      → live_at now s.cache id ≡ some (some p)
      → get_elem? s.heap p ≡ some l
      → now ≤ℤ later
      → TakesOld id ttl now s later j
  unfolding step_of
  old_bucket id ttl now s p l later j h g from =
      let found = load-live bytes_discrete pointers id id now now s.cache (ground arith) in
      (
        p,
        l,
        record (after_load id now s) { heap = set s.heap p (b.allow l).0 },
        h,
        g,
        id_rate_limiter_step id ttl now s (some p, true)
              (found.0 ∙ ap (answer bytes_discrete pointers) h)
            ∙ allow_at_lem p l (after_load id now s) g,
        refl,
        (load-live bytes_discrete pointers id j now later s.cache from).1,
      )

  new_bucket :
      (id : Bytes) (ttl now : ℤ) (s : Buckets b.Limiter) (later : ℤ) (j : Bytes)
      → IsSynced bytes_discrete pointers s.cache
      → live_at now s.cache id ≡ none
      → now ≤ℤ later
      → TakesNew id ttl now s later j
  unfolding step_of
  new_bucket id ttl now s later j i h from =
      let found = load-live bytes_discrete pointers id id now now s.cache (ground arith) in
      let empty = value_at-load bytes_discrete pointers id now s.cache i h in
      let cache = (load bytes_discrete pointers id now s.cache).0 in
      let fresh = some (length s.heap) in
      let made = load_or_store_lem bytes_discrete pointers id fresh (default_ttl ttl) now cache in
      (
        record {
          cache = (load_or_store bytes_discrete pointers id fresh (default_ttl ttl) now cache).0;
          heap = s.heap ++ ((b.allow new_limiter).0 ∷ []);
        },
        h,
        id_rate_limiter_step id ttl now s (none, false)
              (found.0 ∙ ap (answer bytes_discrete pointers) h)
            ∙ make_bucket_lem id (default_ttl ttl) now (after_load id now s) empty,
        refl,
        made.1 later j
            ∙ ap
                (λ o.
                  ite (bytes_discrete id j)
                    (if after later (now +ℤ default_ttl ttl)
                      then none
                      else some (Option.get_or o fresh))
                    (live_at later cache j))
                empty
            ∙ ap
                (λ o.
                  ite (bytes_discrete id j)
                    (if after later (now +ℤ default_ttl ttl) then none else some fresh) o)
                (load-live bytes_discrete pointers id j now later s.cache from).1,
      )

  -- In a map that its own calls made, whose pointer for the identifier, if it has one, is to a bucket:
  -- a request takes from the bucket that the identifier has, and from no other; if it has none, or
  -- its time is over, from a new full bucket, which the identifier then has until `ttl` is over, or
  -- three minutes if `ttl` is zero. What any other identifier has at this time or later is left as it
  -- was, and no nil bucket is asked.
  pub id_rate_limiter_lem :
      (id : Bytes) (ttl now : ℤ) (s : Buckets b.Limiter) (later : ℤ) (j : Bytes)
      → IsSynced bytes_discrete pointers s.cache
      → ((p : Pointer)
          → live_at now s.cache id ≡ some p
          → (q : ℕ) × (l : b.Limiter) × (p ≡ some q) × (get_elem? s.heap q ≡ some l))
      → now ≤ℤ later
      → TakesOld id ttl now s later j ⊎ TakesNew id ttl now s later j
  id_rate_limiter_lem id ttl now s later j i owned from =
      elim (Option-cases (live_at now s.cache id)) [
        | inl h ↦ inr (new_bucket id ttl now s later j i h from)
        | inr (p, h) ↦
            (let (q, l, e, g) = owned p h in
              inl (old_bucket id ttl now s q l later j (h ∙ ap some e) g from))
      ]
