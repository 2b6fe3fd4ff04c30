-- ===== src/OrdMap/Sorted.antt =====
-- The ascending keys of a std::map, and its last entry.
use explorer_kv.Prelude.{true, false, some, [], ◌∷◌, ◌≡◌, arith, Bool-cases, inl, inr, subst}
use explorer_kv.OrdMap.{Map, find, set, erase, Above, IsSorted, last?}
use explorer_kv.OrdMap.Order.{Ord}

module _ {ℓ} {K : Type ℓ} ⦃o : Ord K⦄ where
  -- Of two keys that are not equal the one that is not below is above.
  above_of_not : (i k : K) → o.beq i k ≡ false → o.lt k i ≡ false → o.lt i k ≡ true
  above_of_not i k e l = ground (arith, o.lt_total i k, o.beq_iff i k)

module _ {ℓ κ} {K : Type ℓ} {V : Type κ} ⦃o : Ord K⦄ where
  Above-trans : (k j : K) (m : Map K V) → o.lt k j ≡ true → Above j m → Above k m
  Above-trans k j [] h a = tt
  Above-trans k j ((i, w) ∷ m) h a = (o.lt_trans k j i h a.0, Above-trans k j m h a.1)

  Above-erase : (k j : K) (m : Map K V) → Above k m → Above k (erase j m)
  unfolding erase
  Above-erase k j [] a = tt
  Above-erase k j ((i, w) ∷ m) a = elim (Bool-cases (o.beq i j)) [
    | inl e ↦ rw e (Above-erase k j m a.1)
    | inr e ↦ rw e (a.0, Above-erase k j m a.1)
  ]

  pub erase-IsSorted : (k : K) (m : Map K V) → IsSorted m → IsSorted (erase k m)
  unfolding erase
  erase-IsSorted k [] s = tt
  erase-IsSorted k ((i, w) ∷ m) s = elim (Bool-cases (o.beq i k)) [
    | inl e ↦ rw e (erase-IsSorted k m s.1)
    | inr e ↦ rw e (Above-erase i k m s.0, erase-IsSorted k m s.1)
  ]

  Above-set : (k j : K) (v : V) (m : Map K V) → o.lt k j ≡ true → Above k m → Above k (set j v m)
  unfolding set
  Above-set k j v [] h a = (h, tt)
  Above-set k j v ((i, w) ∷ m) h a = elim (Bool-cases (o.beq i j)) [
    | inl e ↦ rw e (h, a.1)
    | inr e ↦ rw e (elim (Bool-cases (o.lt j i)) [
      | inl l ↦ rw l (h, a)
      | inr l ↦ rw l (a.0, Above-set k j v m h a.1)
    ])
  ]

  pub set-IsSorted : (k : K) (v : V) (m : Map K V) → IsSorted m → IsSorted (set k v m)
  unfolding set
  set-IsSorted k v [] s = (tt, tt)
  set-IsSorted k v ((i, w) ∷ m) s = elim (Bool-cases (o.beq i k)) [
    | inl e ↦ rw e (subst (λ j. Above j m) ((o.beq_iff i k).0 e) s.0, s.1)
    | inr e ↦ rw e (elim (Bool-cases (o.lt k i)) [
      | inl l ↦ rw l ((l, Above-trans k i m l s.0), s)
      | inr l ↦ rw l (Above-set i k v m (above_of_not i k e l) s.0, set-IsSorted k v m s.1)
    ])
  ]

  last-Above : (j k : K) (v : V) (m : Map K V) → Above j m → last? m ≡ some (k, v) → o.lt j k ≡ true
  unfolding last?
  last-Above j k v [] a h = cc
  last-Above j k v ((i, w) ∷ []) a h = ground arith
  last-Above j k v (e ∷ f ∷ m) a h = last-Above j k v (f ∷ m) a.1 h

  pub find-last :
      (m : Map K V) (k : K) (v : V) → IsSorted m → last? m ≡ some (k, v) → find k m ≡ some v
  unfolding find last?
  find-last [] k v s h = cc
  find-last (e ∷ []) k v s h = ground (arith, o.beq_iff k k)
  find-last ((i, w) ∷ f ∷ m) k v s h = ground (
    arith,
    o.beq_iff i k,
    o.lt_irrefl i,
    last-Above i k v (f ∷ m) s.0 h,
    find-last (f ∷ m) k v s.1 h,
  )
