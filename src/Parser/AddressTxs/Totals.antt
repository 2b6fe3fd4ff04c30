-- ===== src/Parser/AddressTxs/Totals.antt =====
-- Sums over the chain of an address: what the counters of its AddressInfo are to be.
use explorer_kv.Prelude.{
  ℕ, zero, suc, ◌<◌, ◌≤◌, Option, none, some, ◌≡◌, refl, inl, inr, Bool-cases, arith, ◌==◌, ==_iff,
}
use explorer_kv.Prelude.Int.{ℤ, pos, ◌+ℤ◌, int_laws, same_parts}
use explorer_kv.OrdMap.{Map, find, set, erase}
use explorer_kv.OrdMap.Order.{nat_ord}
use explorer_kv.OrdMap.Laws.{find-set, find-erase}

no_index : {k : ℕ} {a b : ℤ} → k < 0 → a ≡ b
no_index inside = let no : ⊥ = omega arith in elim no [ ]

module _ {ℓ} {V : Type ℓ} (weight : V → ℤ) where
  abbrev pub weight? : Option V → ℤ
  weight? none = pos 0
  weight? (some v) = weight v

  -- the weights of the values at the indexes below n
  unfoldable pub total : ℕ → Map ℕ V → ℤ
  total zero m = pos 0
  total (suc n) m = total n m +ℤ weight? (find n m)

  -- a value at an index that is not summed
  pub total-set_outside : (n k : ℕ) (v : V) (m : Map ℕ V) → n ≤ k → total n (set k v m) ≡ total n m
  unfolding total
  total-set_outside zero k v m past = refl
  total-set_outside (suc n) k v m past =
      let rest : total n (set k v m) ≡ total n m = total-set_outside n k v m (omega arith) in
      let here : find n (set k v m) ≡ find n m = ground (arith, find-set k n v m) in
      rw (rest, here) refl

  -- a value that takes the place of another
  pub total-set :
      (n k : ℕ) (v w : V) (m : Map ℕ V)
      → k < n
      → find k m ≡ some w
      → total n (set k v m) +ℤ weight w ≡ total n m +ℤ weight v
  unfolding total
  total-set zero k v w m inside old = no_index inside
  total-set (suc n) k v w m inside old = elim (Bool-cases (k == n)) [
    | inl last ↦
        let same : k ≡ n = (==_iff k n).0 last in
        let rest : total n (set k v m) ≡ total n m = total-set_outside n k v m (omega arith) in
        let here : find n (set k v m) ≡ some v = ground (arith, find-set k n v m) in
        let there : find n m ≡ some w = ground (arith, old) in
        rw (rest, here, there) (omega int_laws)
    | inr before ↦
        let rest : total n (set k v m) +ℤ weight w ≡ total n m +ℤ weight v =
          total-set n k v w m (ground arith) old in
        let here : find n (set k v m) ≡ find n m = ground (arith, find-set k n v m) in
        rw (here) (omega (int_laws, same_parts rest))
  ]

  -- a value behind the others
  pub total-set_end :
      (n : ℕ) (v : V) (m : Map ℕ V) → total (suc n) (set n v m) ≡ total n m +ℤ weight v
  unfolding total
  total-set_end n v m =
      let rest : total n (set n v m) ≡ total n m = total-set_outside n n v m (omega arith) in
      let here : find n (set n v m) ≡ some v = ground (arith, find-set n n v m) in
      rw (rest, here) refl

  pub total-erase_outside : (n k : ℕ) (m : Map ℕ V) → n ≤ k → total n (erase k m) ≡ total n m
  unfolding total
  total-erase_outside zero k m past = refl
  total-erase_outside (suc n) k m past =
      let rest : total n (erase k m) ≡ total n m = total-erase_outside n k m (omega arith) in
      let here : find n (erase k m) ≡ find n m = ground (arith, find-erase k n m) in
      rw (rest, here) refl

  -- the last value goes
  pub total-erase_end :
      (n : ℕ) (v : V) (m : Map ℕ V)
      → find n m ≡ some v
      → total n (erase n m) +ℤ weight v ≡ total (suc n) m
  unfolding total
  total-erase_end n v m last =
      let rest : total n (erase n m) ≡ total n m = total-erase_outside n n m (omega arith) in
      rw (rest, last) refl

  -- a value goes
  pub total-erase :
      (n k : ℕ) (v : V) (m : Map ℕ V)
      → k < n
      → find k m ≡ some v
      → total n (erase k m) +ℤ weight v ≡ total n m
  unfolding total
  total-erase zero k v m inside there = no_index inside
  total-erase (suc n) k v m inside there = elim (Bool-cases (k == n)) [
    | inl last ↦
        let same : k ≡ n = (==_iff k n).0 last in
        let rest : total n (erase k m) ≡ total n m = total-erase_outside n k m (omega arith) in
        let here : find n (erase k m) ≡ none = ground (arith, find-erase k n m) in
        let was : find n m ≡ some v = ground (arith, there) in rw (rest, here, was) (omega int_laws)
    | inr before ↦
        let rest : total n (erase k m) +ℤ weight v ≡ total n m =
          total-erase n k v m (ground arith) there in
        let here : find n (erase k m) ≡ find n m = ground (arith, find-erase k n m) in
        rw (here) (omega (int_laws, same_parts rest))
  ]

  -- two values change their places
  pub total-switch :
      (n i j : ℕ) (v w : V) (m : Map ℕ V)
      → i < n
      → j < n
      → find i m ≡ some v
      → find j m ≡ some w
      → total n (set j v (set i w m)) ≡ total n m
  total-switch n i j v w m inside_i inside_j at_i at_j =
      let first : total n (set i w m) +ℤ weight v ≡ total n m +ℤ weight w =
        total-set n i w v m inside_i at_i in
      let now : find j (set i w m) ≡ some w = ground (arith, find-set i j w m) in
      let second : total n (set j v (set i w m)) +ℤ weight w ≡ total n (set i w m) +ℤ weight v =
        total-set n j v w (set i w m) inside_j now in
      omega (int_laws, same_parts first, same_parts second)
