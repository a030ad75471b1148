-- ===== src/Conc/SyncMap/Boxed.antt =====
-- What the calls of the generic map keep of how its values are held.
use goddd.Common.{◌↔◌, ◌∙◌, ◌≡◌, sym, ap, Option, some, arith}
use goddd.Common.Assoc.{lookup, insert, erase, lookup-insert, lookup-erase}
use goddd.Conc.SyncMap.View.{unbox-box, lookup-walk-erase}
use goddd.Conc.SyncMap.{Boxing, Map, box, unbox, clear}

module _ {ℓ} {K V : Type ℓ} (dec : Discrete K) (b : Boxing V) where
  -- Each value is held as `Store` boxes it: no nil value stands where a value that is not nil may.
  unfoldable pub IsBoxed : Map K V → Type ℓ
  IsBoxed m = (k : K) (x : Option V) → lookup dec k m.entries ≡ some x → box b (unbox b x) ≡ x

  box-unbox-box : (v : V) → box b (unbox b (box b v)) ≡ box b v
  box-unbox-box v = ap (box b) (unbox-box dec b v)

  pub insert-IsBoxed :
      (k : K) (v : V) (m : Map K V)
      → IsBoxed m
      → IsBoxed (record { entries = insert dec k (box b v) m.entries })
  unfolding IsBoxed
  insert-IsBoxed k v m i j x e =
      ground (arith, lookup-insert dec k j (box b v) m.entries, box-unbox-box v, i j x, e)

  pub erase-IsBoxed :
      (k : K) (m : Map K V) → IsBoxed m → IsBoxed (record { entries = erase dec k m.entries })
  unfolding IsBoxed
  erase-IsBoxed k m i j x e = ground (arith, lookup-erase dec k j m.entries, i j x, e)

  pub clear-IsBoxed : (m : Map K V) → IsBoxed (clear dec m)
  unfolding IsBoxed clear
  clear-IsBoxed m j x e = ground (arith, lookup-walk-erase dec b j m.entries m.entries, e)

  -- A value is equal to a boxed one exactly if the values are.
  pub boxed_iff : (x : Option V) (v : V) → box b (unbox b x) ≡ x → (x ≡ box b v) ↔ (unbox b x ≡ v)
  boxed_iff x v boxed = ((λ e. ap (unbox b) e ∙ unbox-box dec b v), λ e. sym boxed ∙ ap (box b) e)
