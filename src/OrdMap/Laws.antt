-- ===== src/OrdMap/Laws.antt =====
-- Lookups after each operation of a std::map, and how the size moves.
use explorer_kv.Prelude.{
  ◌<◌, ◌≤◌, true, none, some, [], ◌∷◌, if◌then◌else◌, ◌≡◌, refl, arith, length,
}
use explorer_kv.OrdMap.{Map, find, has, set, insert, erase}
use explorer_kv.OrdMap.Order.{Ord}

module _ {ℓ κ} {K : Type ℓ} {V : Type κ} ⦃o : Ord K⦄ where
  pub find-set :
      (k j : K) (v : V) (m : Map K V)
      → find j (set k v m) ≡ (if o.beq k j then some v else find j m)
  unfolding find set
  find-set k j v [] = refl
  find-set k j v ((i, w) ∷ m) =
      ground (arith, o.beq_iff i k, o.beq_iff i j, o.beq_iff k j, find-set k j v m)

  pub find-erase :
      (k j : K) (m : Map K V) → find j (erase k m) ≡ (if o.beq k j then none else find j m)
  unfolding find erase
  find-erase k j [] = ground arith
  find-erase k j ((i, w) ∷ m) =
      ground (arith, o.beq_iff i k, o.beq_iff i j, o.beq_iff k j, find-erase k j m)

  pub find-insert :
      (k j : K) (v : V) (m : Map K V)
      → find j (insert k v m)
        ≡ (if has k m then find j m else if o.beq k j then some v else find j m)
  unfolding insert
  find-insert k j v m = ground (arith, find-set k j v m)

  length-erase-le : (k : K) (m : Map K V) → length (erase k m) ≤ length m
  unfolding erase
  length-erase-le k [] = omega arith
  length-erase-le k ((i, w) ∷ m) = ground (arith, length-erase-le k m)

  pub length-erase : (k : K) (m : Map K V) → has k m ≡ true → length (erase k m) < length m
  unfolding find erase
  length-erase k [] h = cc
  length-erase k ((i, w) ∷ m) h = ground (arith, length-erase k m, length-erase-le k m)
