-- ===== src/OrdMap.antt =====
-- std::map and std::set: an association list kept in the order of the keys. `find` scans for the
-- key itself, so the laws of lookups hold of every list; only the ends depend on the order.
pub mod Order
pub mod Laws
pub mod Sorted
pub mod Last
use explorer_kv.Prelude.{
  Bool, true, false, Option, none, some, List, [], ◌∷◌, if◌then◌else◌, is_some, ◌≡◌, All,
}
use Order.{Ord}

abbrev pub Map {ℓ κ} : Type ℓ → Type κ → Type (ℓ ⊔ κ)
Map K V = List (K × V)

module _ {ℓ κ} {K : Type ℓ} {V : Type κ} ⦃o : Ord K⦄ where
  -- m.find(k)
  unfoldable pub find : K → Map K V → Option V
  find k [] = none
  find k ((j, v) ∷ m) = if o.beq j k then some v else find k m

  -- m.find(k) != m.end()
  abbrev pub has : K → Map K V → Bool
  has k m = is_some (find k m)

  -- m[k] = v
  unfoldable pub set : K → V → Map K V → Map K V
  set k v [] = (k, v) ∷ []
  set k v ((j, w) ∷ m) =
      let rest = set k v m in
      if o.beq j k then (k, v) ∷ m else if o.lt k j then (k, v) ∷ (j, w) ∷ m else (j, w) ∷ rest

  -- m.insert(make_pair(k, v)): an entry that is there stays
  unfoldable pub insert : K → V → Map K V → Map K V
  insert k v m = if has k m then m else set k v m

  -- m.erase(k)
  unfoldable pub erase : K → Map K V → Map K V
  erase k [] = []
  erase k ((j, v) ∷ m) = let rest = erase k m in if o.beq j k then rest else (j, v) ∷ rest

  abbrev pub Above : K → Map K V → Type 0
  Above k m = All (λ e. o.lt k e.0 ≡ true) m

  -- the keys ascend
  abbrev pub IsSorted : Map K V → Type 0
  IsSorted [] = Unit
  IsSorted ((k, v) ∷ m) = Above k m × IsSorted m

module _ {ℓ κ} {K : Type ℓ} {V : Type κ} where
  -- *m.rbegin()
  unfoldable pub last? : Map K V → Option (K × V)
  last? [] = none
  last? (e ∷ []) = some e
  last? (e ∷ f ∷ m) = last? (f ∷ m)

  -- m.erase(std::prev(m.end()))
  unfoldable pub erase_last : Map K V → Map K V
  erase_last [] = []
  erase_last (e ∷ []) = []
  erase_last (e ∷ f ∷ m) = e ∷ erase_last (f ∷ m)

  -- m.erase(m.begin())
  unfoldable pub erase_first : Map K V → Map K V
  erase_first [] = []
  erase_first (e ∷ m) = m
