-- ===== src/OrdMap/Last.antt =====
-- Writing a key above all others, as the maps from heights do: it becomes the last entry.
use explorer_kv.Prelude.{
  true, false, none, some, [], ◌∷◌, ◌++◌, ◌≡◌, refl, ap, arith, Bool-cases, inl, inr, All,
}
use explorer_kv.OrdMap.{Map, find, set, last?, erase_last}
use explorer_kv.OrdMap.Order.{Ord}

module _ {ℓ κ} {K : Type ℓ} {V : Type κ} where
  -- A map that is not empty has a last entry.
  pub last?-cons : (d : K × V) (m : Map K V) → (e : K × V) × (last? (d ∷ m) ≡ some e)
  unfolding last?
  last?-cons d [] = (d, refl)
  last?-cons d (e ∷ m) = last?-cons e m

  pub last?-append : (m : Map K V) (e : K × V) → last? (m ++ e ∷ []) ≡ some e
  unfolding last?
  last?-append [] e = refl
  last?-append (d ∷ []) e = refl
  last?-append (d ∷ f ∷ m) e = last?-append (f ∷ m) e

  pub erase_last-append : (m : Map K V) (e : K × V) → erase_last (m ++ e ∷ []) ≡ m
  unfolding erase_last
  erase_last-append [] e = refl
  erase_last-append (d ∷ []) e = refl
  erase_last-append (d ∷ f ∷ m) e = ap (◌∷◌ d) (erase_last-append (f ∷ m) e)

module _ {ℓ} {K : Type ℓ} ⦃o : Ord K⦄ where
  not_lt_of_lt : (a b : K) → o.lt a b ≡ true → o.lt b a ≡ false
  not_lt_of_lt a b h = elim (Bool-cases (o.lt b a)) [
    | inl back ↦ ground (arith, o.lt_trans a b a h back, o.lt_irrefl a)
    | inr no_way ↦ no_way
  ]

  ne_of_lt : (a b : K) → o.lt a b ≡ true → o.beq a b ≡ false
  ne_of_lt a b h = ground (arith, o.beq_iff a b, o.lt_irrefl b)

module _ {ℓ κ} {K : Type ℓ} {V : Type κ} ⦃o : Ord K⦄ where
  -- every key is below `k`
  abbrev pub Below : K → Map K V → Type 0
  Below k m = All (λ e. o.lt e.0 k ≡ true) m

  pub set-append : (k : K) (v : V) (m : Map K V) → Below k m → set k v m ≡ m ++ (k, v) ∷ []
  unfolding set
  set-append k v [] b = refl
  set-append k v ((j, w) ∷ m) b =
      rw (ne_of_lt j k b.0, not_lt_of_lt j k b.0) (ap (◌∷◌ (j, w)) (set-append k v m b.1))

  pub find-Below : (k : K) (m : Map K V) → Below k m → find k m ≡ none
  unfolding find
  find-Below k [] b = refl
  find-Below k ((j, w) ∷ m) b = rw (ne_of_lt j k b.0) (find-Below k m b.1)

  pub last?-set : (k : K) (v : V) (m : Map K V) → Below k m → last? (set k v m) ≡ some (k, v)
  last?-set k v m b = rw (set-append k v m b) (last?-append m (k, v))

  pub erase_last-set : (k : K) (v : V) (m : Map K V) → Below k m → erase_last (set k v m) ≡ m
  erase_last-set k v m b = rw (set-append k v m b) (erase_last-append m (k, v))
