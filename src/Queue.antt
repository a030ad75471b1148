-- ===== src/Queue.antt =====
-- pkg/queue/cir_queue.go: `CirQueue`, a ring of at most 255 entries that overwrites the oldest.
-- A field `data` of the source is `items` here. `uint8` arithmetic is written out modulo 256, and
-- `none` is a panic: an index out of range, or a remainder by a size of 0.
pub mod Inv
pub mod Refine
mod Examples
use goddd.Common.{
  ℕ, zero, suc, ◌+◌, ◌%◌, Bool, true, false, not, ◌&&◌, List, [], ◌∷◌, Option, none, some, ltb,
  ◌==◌, if◌then◌else◌, length, get_elem?, set, replicate,
}
use mathlib.Core.Option

pub record CirQueue {ℓ} (A : Type ℓ) : Type ℓ where
  pub over : Bool
  pub idx : ℕ
  pub size : ℕ
  pub items : List A

module _ {ℓ} {A : Type ℓ} where
  -- `make` fills the slice with the zero value of the type.
  pub new : A → ℕ → CirQueue A
  new zero_value n = record { over = false; idx = 0; size = n; items = replicate n zero_value }

  -- `c.size - 1` wraps at 0.
  abbrev pub last_index : CirQueue A → ℕ
  last_index c = (c.size + 255) % 256

  abbrev pub next_index : CirQueue A → ℕ → ℕ
  next_index c i = (i + 1) % 256 % c.size

  -- What `Push` leaves behind.
  abbrev pub stored : CirQueue A → A → CirQueue A
  stored c x = record c {
    over = if c.idx == last_index c && not c.over then true else c.over;
    items = set c.items c.idx x;
    idx = next_index c c.idx;
  }

  pub push : CirQueue A → A → Option (CirQueue A)
  push c x = if ltb c.idx (length c.items) then some (stored c x) else none

  pub size_of : CirQueue A → ℕ
  size_of c = if not c.over then c.idx else c.size

  pub is_full : CirQueue A → Bool
  is_full c = c.over

  -- The loop of `Range`, with the rounds left and the index.
  collect : CirQueue A → ℕ → ℕ → Option (List A)
  collect c zero i = some []
  collect c (suc n) i =
      let rest = collect c n (next_index c i) in
      elim (get_elem? c.items i) [ none ↦ none | some x ↦ Option.map (λ xs. x ∷ xs) rest ]

  pub range : CirQueue A → Option (List A)
  unfolding size_of collect
  range c = collect c (size_of c) (if not c.over then 0 else c.idx)

  -- A run of pushes, as `CountGoroutines` makes them.
  pub push_all : CirQueue A → List A → Option (CirQueue A)
  unfolding push
  push_all c [] = some c
  push_all c (x ∷ xs) = elim (push c x) [ none ↦ none | some c' ↦ push_all c' xs ]
