-- ===== src/MemTxRepository/Unsynced.antt =====
-- The changes that MemTxRepository holds back for the table 0_memrepo_txs.
use explorer_kv.Prelude.{
  ℕ, true, false, not, ◌&&◌, ◌||◌, ◌≡◌, inl, inr, arith, ◌==◌, subst, sym, ap, ◌∙◌, Bool-cases,
}
use explorer_kv.Transaction.{Hash, Tx}
use explorer_kv.OrdMap.{Map, has, insert, IsSorted}
use explorer_kv.OrdMap.Order.{nat_ord}
use explorer_kv.OrdMap.Laws.{find-insert}
use explorer_kv.OrdMap.Sorted.{set-IsSorted}
use explorer_kv.MemTxRepository.{MemTxRepository, is_exist}
use explorer_kv.MemTxRepository.Invariant.{Inv, Added, Removed}

abbrev pub HashSet : Type 0
HashSet = Map Hash (Unit {0})

-- With the table's hashes, the inserts and the deletes give the transactions of the repository; no
-- insert is of a hash that the table has, and no delete of a hash that it would not have.
pub record Tracks (m : MemTxRepository) (table : HashSet) : Type 0 where
  pub at :
      (h : Hash)
      → is_exist m h
        ≡ ((has h table || has h m.unsync_txs_insert) && not (has h m.unsync_txs_delete))
  pub fresh : (h : Hash) → has h m.unsync_txs_insert ≡ true → has h table ≡ false
  pub known :
      (h : Hash)
      → has h m.unsync_txs_delete ≡ true
      → (has h table || has h m.unsync_txs_insert) ≡ true
  pub inserts_sorted : IsSorted m.unsync_txs_insert
  pub deletes_sorted : IsSorted m.unsync_txs_delete

pub has-insert : (k h : Hash) (s : HashSet) → has h (insert k tt s) ≡ (has h s || k == h)
has-insert k h s = ground (arith, find-insert k h tt s)

pub insert-IsSorted : (k : Hash) (s : HashSet) → IsSorted s → IsSorted (insert k tt s)
unfolding insert
insert-IsSorted k s h = elim (Bool-cases (has k s)) [
  | inl old ↦ rw old h
  | inr new ↦ rw new (set-IsSorted k tt s h)
]

module _ (rank : Hash → ℕ) (m m' : MemTxRepository) (inv : Inv rank m) (table : HashSet)
    (t : Tracks m table) where
  -- An added transaction is one that was not deleted before it is added.
  pub Tracks-Added :
      (tx : Tx)
      → Added rank m tx m'
      → is_exist m tx.hash ≡ false
      → has tx.hash m.unsync_txs_delete ≡ false
      → Tracks m' table
  Tracks-Added tx a new kept = record {
    at = λ h. ground (arith, a.txs h, ins h, dels h, t.at h);
    fresh = λ h e. ground (arith, ins h, t.fresh h, t.at h);
    known = λ h e. ground (arith, ins h, dels h, t.known h);
    inserts_sorted = subst IsSorted (sym a.inserts) (insert-IsSorted _ _ t.inserts_sorted);
    deletes_sorted = subst IsSorted (sym a.deletes) t.deletes_sorted;
  }
    where
      ins : (h : Hash) → has h m'.unsync_txs_insert ≡ (has h m.unsync_txs_insert || tx.hash == h)
      ins h = ap (has h) a.inserts ∙ has-insert tx.hash h m.unsync_txs_insert

      dels : (h : Hash) → has h m'.unsync_txs_delete ≡ has h m.unsync_txs_delete
      dels h = ap (has h) a.deletes

  pub Tracks-Removed : (h : Hash) → Removed rank m h m' → is_exist m h ≡ true → Tracks m' table
  Tracks-Removed h r there = record {
    at = λ j. ground (arith, r.txs j, ins j, dels j, t.at j);
    fresh = λ j e. ground (arith, ins j, t.fresh j);
    known = λ j e. ground (arith, ins j, dels j, t.known j, t.at j);
    inserts_sorted = subst IsSorted (sym r.inserts) t.inserts_sorted;
    deletes_sorted = subst IsSorted (sym r.deletes) (insert-IsSorted _ _ t.deletes_sorted);
  }
    where
      ins : (j : Hash) → has j m'.unsync_txs_insert ≡ has j m.unsync_txs_insert
      ins j = ap (has j) r.inserts

      dels : (j : Hash) → has j m'.unsync_txs_delete ≡ (has j m.unsync_txs_delete || h == j)
      dels j = ap (has j) r.deletes ∙ has-insert h j m.unsync_txs_delete
