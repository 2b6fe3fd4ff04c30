-- ===== src/Log2Producer/Clear.antt =====
-- clearMempoolTxs (jiexi/src/Log2Producer.cc): the loop over removeTx(), and its batch.
use explorer_kv.Prelude.{
  ℕ, zero, suc, ◌≤◌, true, false, some, List, [], ◌∷◌, ◌≡◌, refl, sym, ap, ◌∙◌, inl, inr, arith,
  length, List-cases, subst,
}
use explorer_kv.Prelude.Result.{ok}
use explorer_kv.Transaction.{Hash, Tx}
use explorer_kv.OrdMap.{Map, find, has, last?}
use explorer_kv.OrdMap.Order.{nat_ord}
use explorer_kv.OrdMap.Last.{last?-cons}
use explorer_kv.OrdMap.Sorted.{find-last}
use explorer_kv.MemTxRepository.{MemTxRepository, size, is_exist, remove_last_tx}
use explorer_kv.MemTxRepository.Invariant.{Inv, Removed, remove_tx-Removed}
use explorer_kv.MemTxRepository.Ends.{get_spent_end_tx_ends}
use explorer_kv.MemTxRepository.Unsynced.{HashSet}
use explorer_kv.MemTxRepository.Removal.{Drained, Drained-nil, Drained-cons, end_exists}
use explorer_kv.TxLogs2.{Ledger, reject_rows}
use explorer_kv.Log2Producer.{Log2Producer, clear_mempool_txs, drain, append_rows}
use explorer_kv.Log2Producer.Commit.{Sound}
use explorer_kv.Log2Producer.Transactions.{Rejected, reject_batch}

-- A set without elements is the empty list.
empty_of_none : (set : HashSet) → ((h : Hash) → has h set ≡ false) → set ≡ []
unfolding find
empty_of_none [] f = refl
empty_of_none ((k, _) ∷ set) f = absurd (ground (arith, f k))

module _ (rank : Hash → ℕ) where
  -- `removeTx()` takes a transaction out of a repository that is not empty.
  remove_last_tx_removes :
      (m : MemTxRepository)
      → Inv rank m
      → (e : Hash × Tx) (txs : Map Hash Tx) → m.txs ≡ e ∷ txs
      → (h : Hash) × (m' : MemTxRepository) × (remove_last_tx m ≡ ok (m', h))
        × (is_exist m h ≡ true)
        × Removed rank m h m'
  unfolding remove_last_tx
  remove_last_tx_removes m inv e txs shape =
      let ((k, tx), last) = last?-cons e txs in
      let last' : last? m.txs ≡ some (k, tx) = ap last? shape ∙ last in
      let at = find-last m.txs k tx inv.sorted last' in
      let at' : find tx.hash m.txs ≡ some tx =
        subst (λ j. find j m.txs ≡ some tx) (sym (inv.keyed k tx at)) at in
      let (h, ends, end) = get_spent_end_tx_ends rank m inv tx in
      let (t, there) = end_exists rank m inv tx h at' end in
      let (m', removes, r) = remove_tx-Removed rank m inv h t there in
      (h, m', rw (last', remove_last_tx) (rw (ends, removes)), ground (arith, there), r)

  -- The loop ends within as many rounds as there are transactions, and leaves none.
  drain_fuel :
      (fuel : ℕ) (m : MemTxRepository)
      → Inv rank m
      → size m ≤ fuel
      → (m' : MemTxRepository) × (hs : List Hash) × (drain fuel m ≡ ok (m', hs))
        × Drained rank m hs m'
        × (m'.txs ≡ [])
  unfolding drain
  drain_fuel zero m inv few = elim (List-cases m.txs) [
    | inl none_left ↦
        (m, [], ground (arith, ap length none_left), Drained-nil rank m inv, none_left)
    | inr (e, txs, shape) ↦ absurd (omega (arith, ap length shape))
  ]
  drain_fuel (suc fuel) m inv few = elim (List-cases m.txs) [
    | inl none_left ↦
        (m, [], ground (arith, ap length none_left), Drained-nil rank m inv, none_left)
    | inr (e, txs, shape) ↦
        let (h, m1, removes, there, r) = remove_last_tx_removes m inv e txs shape in
        let (m2, hs, runs, d, clean) = drain_fuel fuel m1 r.inv' (omega (arith, r.smaller)) in
        (
          m2,
          h ∷ hs,
          rw (shape, drain) (rw (removes, runs)),
          Drained-cons rank m m1 m2 inv h hs there r d,
          clean,
        )
  ]

  -- From a sound producer, clearing the pool always returns: the pool and its table are empty,
  -- every transaction of the list left the pool, exactly these are logged as rejected in one
  -- batch, and the producer is sound.
  pub clear_mempool_txs-Rejected :
      (s : Ledger) (p : Log2Producer) (sound : Sound rank s p)
      → (p' : Log2Producer) × (hs : List Hash) × (clear_mempool_txs p ≡ ok p')
        × Rejected rank s p sound hs p'
        × (p'.mem_repo.txs ≡ [])
        × (p'.db.memrepo_txs ≡ [])
  unfolding clear_mempool_txs
  clear_mempool_txs-Rejected s p sound =
      let (m, hs, drains, d, clean) =
        drain_fuel (size p.mem_repo) p.mem_repo sound.inv (omega arith) in
      let (p', commits, r, txs) =
        reject_batch rank s p sound m (append_rows p.db (reject_rows hs)) hs d
          (unfold append_rows in refl) (unfold append_rows in refl) in
      let gone : p'.mem_repo.txs ≡ [] = txs ∙ clean in
      let bare : p'.db.memrepo_txs ≡ [] =
        empty_of_none p'.db.memrepo_txs (λ h.
          r.sound'.table h ∙ ap (λ (m : Map Hash Tx). has h m) gone ∙ (unfold find in refl)) in
      (p', hs, rw (drains, commits) (rw bare), r, gone, bare)
