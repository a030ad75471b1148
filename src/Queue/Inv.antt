-- ===== src/Queue/Inv.antt =====
-- The invariant of `CirQueue`: the storage has `size` places, and the write index is one of them.
use goddd.Common.{ℕ, ◌+◌, ◌-◌, ◌<◌, ◌≡◌, some, arith, length, length-set, length-replicate}
use native.Mathlib.Nat.{mod-eq_of_lt, mod_self}
use goddd.Queue.{CirQueue, new, push, stored, next_index, last_index}

pub record IsValid {ℓ} {A : Type ℓ} (c : CirQueue A) : Type ℓ where
  pub storage : length c.items ≡ c.size
  pub nonempty : 0 < c.size
  pub byte : c.size < 256
  pub in_range : c.idx < c.size

module _ {ℓ} {A : Type ℓ} where
  -- A new queue of 1 to 255 places is valid.
  pub new-IsValid : (z : A) (n : ℕ) → 0 < n → n < 256 → IsValid (new z n)
  unfolding new
  new-IsValid z n p q = record {
    storage = length-replicate n z;
    nonempty = p;
    byte = q;
    in_range = p;
  }

  -- A push into a valid queue does not panic.
  pub push_total : {c : CirQueue A} (x : A) → IsValid c → push c x ≡ some (stored c x)
  unfolding push
  push_total x v = ground arith

  pub push-IsValid : {c c' : CirQueue A} (x : A) → IsValid c → push c x ≡ some c' → IsValid c'
  unfolding push
  push-IsValid {c} x v e = ground (arith, length-set c.items c.idx x)

  -- The index after the last place is 0, and otherwise the next one; no sum leaves `uint8`.
  pub next_index_inside :
      {c : CirQueue A} (i : ℕ) → IsValid c → i + 1 < c.size → next_index c i ≡ i + 1
  next_index_inside {c} i v h =
      rw (mod-eq_of_lt {n = i + 1} {m = 256} (omega arith), mod-eq_of_lt {n = i + 1} h)

  pub next_index_last : {c : CirQueue A} (i : ℕ) → IsValid c → i + 1 ≡ c.size → next_index c i ≡ 0
  next_index_last {c} i v h =
      rw (mod-eq_of_lt {n = i + 1} {m = 256} (omega arith), h, mod_self c.size)

  pub last_index_lem : {c : CirQueue A} → IsValid c → last_index c ≡ c.size - 1
  last_index_lem v = omega arith
