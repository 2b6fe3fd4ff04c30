-- ===== src/Parser/AddressTxs/Listed.antt =====
-- The two indexes of an address's chain: from the places to the transactions (21_) and from the
-- transactions to their places (22_).
use explorer_kv.Prelude.{
  ℕ, suc, ◌<◌, ◌≤◌, Bool, true, false, some, ◌≡◌, ◌≢◌, sym, ap, ◌∙◌, ◌⊎◌, inl, inr, Bool-cases,
  Option-cases, arith, ltb, ◌==◌, ==_iff, subst,
}
use explorer_kv.Prelude.Int.{negsuc, ltb_ℤ}
use explorer_kv.Transaction.{Hash}
use explorer_kv.OrdMap.{Map, find, has, set, erase}
use explorer_kv.OrdMap.Order.{nat_ord}
use explorer_kv.OrdMap.Laws.{find-set, find-erase}
use explorer_kv.Parser.Address.{AddressTx}

-- Has the entry the height of a block?
abbrev pub has_height : AddressTx → Bool
has_height t = ltb_ℤ (negsuc 0) t.tx_height

-- `count` entries stand at the indexes below `count`, the first `next` of them, and no other, have the
-- height of a block, and the other index leads back from the hash of each entry to its place.
pub record IsListed (count next : ℕ) (txs : Map ℕ AddressTx) (idxs : Map Hash ℕ) : Type 0 where
  pub bounded : next ≤ count
  pub present : (i : ℕ) → i < count → has i txs ≡ true
  pub inside : (i : ℕ) (t : AddressTx) → find i txs ≡ some t → i < count
  pub indexed : (i : ℕ) (t : AddressTx) → find i txs ≡ some t → find t.tx_hash idxs ≡ some i
  pub heights : (i : ℕ) (t : AddressTx) → find i txs ≡ some t → has_height t ≡ ltb i next

-- The chain has no entry with the hash.
abbrev pub IsNew : Hash → Map ℕ AddressTx → Type 0
IsNew h txs = (i : ℕ) (t : AddressTx) → find i txs ≡ some t → t.tx_hash ≢ h

pub entry_at :
    (n c i : ℕ) (txs : Map ℕ AddressTx) (idxs : Map Hash ℕ)
    → IsListed n c txs idxs
    → i < n
    → (t : AddressTx) × (find i txs ≡ some t)
entry_at n c i txs idxs inv below = elim (Option-cases (find i txs)) [
  | inl gone ↦ let no : ⊥ = ground (arith, gone, inv.present i) in elim no [ ]
  | inr found ↦ found
]

-- what stands in a map after an entry is written
pub set_cases {ℓ} :
    {V : Type ℓ} (k i : ℕ) (v t : V) (m : Map ℕ V)
    → find i (set k v m) ≡ some t
    → ((i ≡ k) × (v ≡ t)) ⊎ ((k == i) ≡ false) × (find i m ≡ some t)
set_cases k i v t m at = elim (Bool-cases (k == i)) [
  | inl here ↦
      let found : find i (set k v m) ≡ some v = ground (arith, find-set k i v m) in
      let both : some v ≡ some t = sym found ∙ at in
      inl (sym ((==_iff k i).0 here), (let one : v ≡ t = cc in one))
  | inr other ↦ inr (
    other,
    (let found : find i (set k v m) ≡ find i m = ground (arith, find-set k i v m) in
        sym found ∙ at),
  )
]

module _ (n c : ℕ) (txs : Map ℕ AddressTx) (idxs : Map Hash ℕ) (inv : IsListed n c txs idxs) where
  -- an entry behind the others
  module _ (h : Hash) (v : AddressTx) (named : v.tx_hash ≡ h) (low : has_height v ≡ false)
      (fresh : IsNew h txs) where
    append-indexed :
        (i : ℕ) (t : AddressTx)
        → find i (set n v txs) ≡ some t
        → find t.tx_hash (set h n idxs) ≡ some i
    append-indexed i t at = elim (set_cases n i v t txs at) [
      | inl (here, same) ↦ ground (arith, find-set h t.tx_hash n idxs, ap (λ x. x.tx_hash) same)
      | inr (other, old) ↦
          ground (arith, find-set h t.tx_hash n idxs, inv.indexed i t old, fresh i t old)
    ]

    append-heights :
        (i : ℕ) (t : AddressTx) → find i (set n v txs) ≡ some t → has_height t ≡ ltb i c
    append-heights i t at = elim (set_cases n i v t txs at) [
      | inl (here, same) ↦
          subst (λ x. has_height x ≡ ltb i c) same (low ∙ ground (arith, inv.bounded))
      | inr (other, old) ↦ inv.heights i t old
    ]

    pub append-IsListed : IsListed (suc n) c (set n v txs) (set h n idxs)
    append-IsListed = record {
      bounded = omega (arith, inv.bounded);
      present = λ i below. ground (arith, find-set n i v txs, inv.present i);
      inside = λ i t at. ground (arith, find-set n i v txs, inv.inside i t);
      indexed = append-indexed;
      heights = append-heights;
    }

  -- two unconfirmed entries change their places
  module _ (i j : ℕ) (v w : AddressTx) (past_i : c ≤ i) (past_j : c ≤ j)
      (at_i : find i txs ≡ some v) (at_j : find j txs ≡ some w) where
    abbrev switched : Map ℕ AddressTx
    switched = set j v (set i w txs)

    -- where an entry of the new map comes from
    switched_cases :
        (k : ℕ) (t : AddressTx)
        → find k switched ≡ some t
        → ((k ≡ j) × (v ≡ t))
          ⊎ ((k ≡ i) × (w ≡ t) × ((j == k) ≡ false))
          ⊎ ((j == k) ≡ false) × ((i == k) ≡ false) × (find k txs ≡ some t)
    switched_cases k t at = elim (set_cases j k v t (set i w txs) at) [
      | inl here ↦ inl here
      | inr (other, old) ↦ elim (set_cases i k w t txs old) [
        | inl (there, same) ↦ inr (inl (there, same, other))
        | inr (neither, old') ↦ inr (inr (other, neither, old'))
      ]
    ]

    switched-indexed :
        (k : ℕ) (t : AddressTx)
        → find k switched ≡ some t
        → find t.tx_hash (set w.tx_hash i (set v.tx_hash j idxs)) ≡ some k
    switched-indexed k t at = elim (switched_cases k t at) [
      | inl (here, same) ↦ ground (
        arith,
        ap (λ x. x.tx_hash) same,
        here,
        find-set w.tx_hash t.tx_hash i (set v.tx_hash j idxs),
        find-set v.tx_hash t.tx_hash j idxs,
        inv.indexed i v at_i,
        inv.indexed j w at_j,
      )
      | inr (inl (there, same, other)) ↦ ground (
        arith,
        ap (λ x. x.tx_hash) same,
        there,
        find-set w.tx_hash t.tx_hash i (set v.tx_hash j idxs),
      )
      | inr (inr (other, neither, old)) ↦ ground (
        arith,
        find-set w.tx_hash t.tx_hash i (set v.tx_hash j idxs),
        find-set v.tx_hash t.tx_hash j idxs,
        inv.indexed i v at_i,
        inv.indexed j w at_j,
        inv.indexed k t old,
      )
    ]

    switched-heights : (k : ℕ) (t : AddressTx) → find k switched ≡ some t → has_height t ≡ ltb k c
    switched-heights k t at = elim (switched_cases k t at) [
      | inl (here, same) ↦
          subst (λ x. has_height x ≡ ltb k c) same (inv.heights i v at_i ∙ ground arith)
      | inr (inl (there, same, _)) ↦
          subst (λ x. has_height x ≡ ltb k c) same (inv.heights j w at_j ∙ ground arith)
      | inr (inr (_, _, old)) ↦ inv.heights k t old
    ]

    switched-inside : (k : ℕ) (t : AddressTx) → find k switched ≡ some t → k < n
    switched-inside k t at = elim (switched_cases k t at) [
      | inl (here, _) ↦ omega (arith, here, inv.inside j w at_j)
      | inr (inl (there, _, _)) ↦ omega (arith, there, inv.inside i v at_i)
      | inr (inr (_, _, old)) ↦ inv.inside k t old
    ]

    pub switch-IsListed : IsListed n c switched (set w.tx_hash i (set v.tx_hash j idxs))
    switch-IsListed = record {
      bounded = inv.bounded;
      present = λ k below.
          ground (arith, find-set j k v (set i w txs), find-set i k w txs, inv.present k);
      inside = switched-inside;
      indexed = switched-indexed;
      heights = switched-heights;
    }

  -- an entry is rewritten under its hash, and the border of the confirmed ones moves over it
  module _ (d k : ℕ) (v w : AddressTx) (bounded' : d ≤ n) (at : find k txs ≡ some w)
      (named : v.tx_hash ≡ w.tx_hash) (low : has_height v ≡ ltb k d)
      (others : (i : ℕ) → (k == i) ≡ false → ltb i c ≡ ltb i d) where
    rewrite-indexed :
        (i : ℕ) (t : AddressTx) → find i (set k v txs) ≡ some t → find t.tx_hash idxs ≡ some i
    rewrite-indexed i t now = elim (set_cases k i v t txs now) [
      | inl (here, same) ↦ ground (arith, ap (λ x. x.tx_hash) same, here, named, inv.indexed k w at)
      | inr (other, old) ↦ inv.indexed i t old
    ]

    rewrite-heights :
        (i : ℕ) (t : AddressTx) → find i (set k v txs) ≡ some t → has_height t ≡ ltb i d
    rewrite-heights i t now = elim (set_cases k i v t txs now) [
      | inl (here, same) ↦
          subst (λ x. has_height x ≡ ltb i d) same
            (subst (λ x. has_height v ≡ ltb x d) (sym here) low)
      | inr (other, old) ↦ inv.heights i t old ∙ others i other
    ]

    rewrite-inside : (i : ℕ) (t : AddressTx) → find i (set k v txs) ≡ some t → i < n
    rewrite-inside i t now = elim (set_cases k i v t txs now) [
      | inl (here, same) ↦ omega (arith, here, inv.inside k w at)
      | inr (other, old) ↦ inv.inside i t old
    ]

    pub rewrite-IsListed : IsListed n d (set k v txs) idxs
    rewrite-IsListed = record {
      bounded = bounded';
      present = λ i below. ground (arith, find-set k i v txs, inv.present i);
      inside = rewrite-inside;
      indexed = rewrite-indexed;
      heights = rewrite-heights;
    }

-- the last entry goes, and the other index keeps what it says of the other hashes
module _ (n c : ℕ) (txs : Map ℕ AddressTx) (idxs idxs' : Map Hash ℕ)
    (inv : IsListed (suc n) c txs idxs) (w : AddressTx) (at : find n txs ≡ some w) (bounded : c ≤ n)
    (kept : (j : Hash) → j ≢ w.tx_hash → find j idxs' ≡ find j idxs) where
  remove-indexed :
      (i : ℕ) (t : AddressTx) → find i (erase n txs) ≡ some t → find t.tx_hash idxs' ≡ some i
  remove-indexed i t now =
      let old : find i txs ≡ some t = ground (arith, find-erase n i txs) in
      ground
        (arith, old, find-erase n i txs, inv.indexed i t old, inv.indexed n w at, kept t.tx_hash)

  remove-inside : (i : ℕ) (t : AddressTx) → find i (erase n txs) ≡ some t → i < n
  remove-inside i t now = ground (arith, find-erase n i txs, inv.inside i t)

  remove-heights : (i : ℕ) (t : AddressTx) → find i (erase n txs) ≡ some t → has_height t ≡ ltb i c
  remove-heights i t now =
      let old : find i txs ≡ some t = ground (arith, find-erase n i txs) in inv.heights i t old

  pub remove-IsListed : IsListed n c (erase n txs) idxs'
  remove-IsListed = record {
    bounded = bounded;
    present = λ i below. ground (arith, find-erase n i txs, inv.present i);
    inside = remove-inside;
    indexed = remove-indexed;
    heights = remove-heights;
  }
