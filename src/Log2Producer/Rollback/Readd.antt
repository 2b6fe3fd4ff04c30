-- ===== src/Log2Producer/Rollback/Readd.antt =====
-- The first loop of handleBlockRollback: the transactions of the block come back to the pool.
use explorer_kv.Prelude.{
  ℕ, true, false, not, some, List, [], ◌∷◌, ◌&&◌, ◌||◌, ◌≡◌, refl, sym, ◌∙◌, inl, inr, arith, ◌==◌,
  ==_iff, elem, All, Bool-cases, subst,
}
use explorer_kv.Prelude.Result.{ok}
use explorer_kv.Transaction.{Hash, Tx, spends}
use explorer_kv.OrdMap.Order.{nat_ord}
use explorer_kv.MemTxRepository.{MemTxRepository, is_exist, has_conflict, add_tx}
use explorer_kv.MemTxRepository.Invariant.{Inv, Added, add_tx-Added}
use explorer_kv.MemTxRepository.Unsynced.{HashSet, Tracks, Tracks-Added}
use explorer_kv.Log2Producer.Conflicts.{contender_of_conflict}
use explorer_kv.Log2Producer.Transactions.{has_none}
use explorer_kv.Log2Producer.Blocks.{re_add}
use explorer_kv.Log2Producer.Rollback.{hashes, NoClash, CanReturn, Apart, AllApart}

-- one round of the loop
re_add-coinbase :
    (m : MemTxRepository) (tx : Tx) (txs : List Tx)
    → tx.is_coinbase ≡ true
    → re_add m (tx ∷ txs) ≡ re_add m txs
unfolding re_add
re_add-coinbase m tx txs top = rw top refl

re_add-regular :
    (m m1 : MemTxRepository) (tx : Tx) (txs : List Tx)
    → tx.is_coinbase ≡ false
    → add_tx m tx ≡ ok (m1, true)
    → re_add m (tx ∷ txs) ≡ re_add m1 txs
unfolding re_add
re_add-regular m m1 tx txs regular adds = rw regular (rw adds refl)

module _ (rank : Hash → ℕ) (c : Hash) (table : HashSet) where
  -- what the loop leaves
  pub record Returned (m : MemTxRepository) (txs : List Tx) (m' : MemTxRepository) : Type 0 where
    pub inv' : Inv rank m'
    pub tracks' : Tracks m' table
    pub at : (h : Hash) → is_exist m' h ≡ (is_exist m h || elem h (hashes txs) && not (c == h))

  no_conflict :
      (m : MemTxRepository) (tx : Tx)
      → Inv rank m
      → NoClash m tx
      → has_conflict m.spent_outputs tx.vin ≡ false
  no_conflict m tx inv clear = elim (Bool-cases (has_conflict m.spent_outputs tx.vin)) [
    | inr free ↦ free
    | inl blocked ↦
        let (by, out, found, wanted, taken) =
          contender_of_conflict m.spent_outputs tx.vin blocked in
        let (owner, at, s) = inv.sound out by taken in
        let no : ⊥ = ground (arith, s, clear out wanted by owner at) in elim no [ ]
  ]

  clear_after :
      (m m' : MemTxRepository) (tx u : Tx)
      → Added rank m tx m'
      → Apart tx u
      → NoClash m u
      → NoClash m' u
  clear_after m m' tx u a apart clear out wanted h t at = elim (Bool-cases (tx.hash == h)) [
    | inl mine ↦
        let here : some tx ≡ some t = sym (a.txs h ∙ rw mine refl) ∙ at in
        let same : tx ≡ t = cc in
        subst (λ x. spends out x.vin ≡ false) same (apart.inputs out wanted)
    | inr other ↦ clear out wanted h t (sym (a.txs h ∙ rw other refl) ∙ at)
  ]

  still :
      (m m' : MemTxRepository) (tx : Tx)
      → Added rank m tx m'
      → (txs : List Tx) → All (Apart tx) txs
      → All (CanReturn rank c m) txs
      → All (CanReturn rank c m') txs
  still m m' tx a [] apart can = tt
  still m m' tx a (u ∷ txs) (first, apart) (g, can) = (
    record {
      coinbase = g.coinbase;
      spendable = g.spendable;
      fresh = ground (arith, a.txs u.hash, first.hashes, g.fresh);
      clashless = clear_after m m' tx u a first g.clashless;
    },
    still m m' tx a txs apart can,
  )

  pub re_add-Returned :
      (txs : List Tx) (m : MemTxRepository)
      → Inv rank m
      → Tracks m table
      → m.unsync_txs_delete ≡ []
      → AllApart txs
      → All (CanReturn rank c m) txs
      → (m' : MemTxRepository) × (re_add m txs ≡ ok m') × Returned m txs m'
  unfolding re_add
  re_add-Returned [] m inv t none_gone apart can =
      (m, refl, record { inv' = inv; tracks' = t; at = λ h. ground arith })
  re_add-Returned (tx ∷ txs) m inv t none_gone (first, apart) (g, can) =
      elim (Bool-cases tx.is_coinbase) [
        | inl top ↦
            let (m', runs, r) = re_add-Returned txs m inv t none_gone apart can in
            (
              m',
              re_add-coinbase m tx txs top ∙ runs,
              record {
                inv' = r.inv';
                tracks' = r.tracks';
                at = λ h.
                    ground (arith, r.at h, top, g.coinbase, ==_iff c tx.hash, ==_iff tx.hash h);
              },
            )
        | inr regular ↦
            let (m1, adds, a) =
              add_tx-Added rank m inv tx (g.spendable regular) g.fresh
                (no_conflict m tx inv g.clashless) in
            let t1 =
              Tracks-Added rank m m1 inv table t tx a g.fresh
                (has_none m.unsync_txs_delete tx.hash none_gone) in
            let (m', runs, r) =
              re_add-Returned txs m1 a.inv' t1 (a.deletes ∙ none_gone) apart
                (still m m1 tx a txs first can) in
            (
              m',
              re_add-regular m m1 tx txs regular adds ∙ runs,
              record {
                inv' = r.inv';
                tracks' = r.tracks';
                at = λ h. ground (
                  arith,
                  r.at h,
                  a.txs h,
                  regular,
                  g.coinbase,
                  ==_iff c tx.hash,
                  ==_iff tx.hash h,
                  ==_iff c h,
                );
              },
            )
      ]
