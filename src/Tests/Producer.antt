-- ===== src/Tests/Producer.antt =====
-- The handlers of log2producer on the pool that holds `first`, and its restart.
use explorer_kv.Prelude.{
  true, false, not, ◌&&◌, ◌||◌, some, List, [], ◌∷◌, ◌≡◌, refl, arith, elem, ◌==◌,
}
use explorer_kv.Prelude.Int.{negsuc}
use explorer_kv.Prelude.Result.{ok}
use explorer_kv.Transaction.{Hash, Tx}
use explorer_kv.OrdMap.{find, has}
use explorer_kv.OrdMap.Order.{nat_ord}
use explorer_kv.MemTxRepository.{MemTxRepository, empty, is_exist, has_conflict}
use explorer_kv.MemTxRepository.Invariant.{Inv}
use explorer_kv.MemTxRepository.Ends.{Descends}
use explorer_kv.MemTxRepository.Unsynced.{HashSet, Tracks}
use explorer_kv.TxLogs2.{Row, LogType, Status, replay}
use explorer_kv.TxLogs2.Lifecycle.{Coheres}
use explorer_kv.Log2Producer.{
  Log2Producer, handle_tx_accept, handle_tx_reject, clear_mempool_txs, commit_batch,
}
use explorer_kv.Log2Producer.Tables.{Db, sync_to_db, next_batch_id}
use explorer_kv.Log2Producer.Sync.{cleaned, sync_to_db_ok}
use explorer_kv.Log2Producer.Commit.{Sound, with_batch, commit_batch-Sound}
use explorer_kv.Log2Producer.Transactions.{
  Rejected, handle_tx_accept-Sound, handle_tx_reject-Rejected,
}
use explorer_kv.Log2Producer.Clear.{clear_mempool_txs-Rejected}
use explorer_kv.Log2Producer.Run.{load_memrepo_txs}
use explorer_kv.Log2Producer.Run.Reload.{load_memrepo_txs-whole}
use explorer_kv.Tests.Data.{
  rank, nothing_yet, first, first-IsSpendable, start, start-Sound, one_in_pool, one_in_pool-Sound,
  one_in_pool-first,
}
use explorer_kv.Tests.Pool.{with_first, with_first-Inv}

absent_first : replay nothing_yet [] 10 ≡ Status.absent
unfolding replay
absent_first = refl

handle_tx_accept-Sound_example :
    (p : Log2Producer) × (handle_tx_accept start first ≡ ok p)
    × Sound rank nothing_yet p
    × ((h : Hash)
        → is_exist p.mem_repo h ≡ (
            is_exist start.mem_repo h
            || 10 == h && not (has_conflict start.mem_repo.spent_outputs first.vin)))
handle_tx_accept-Sound_example =
    handle_tx_accept-Sound rank nothing_yet start start-Sound first first-IsSpendable
      (λ e. absent_first)

handle_tx_reject-Rejected_example :
    (p : Log2Producer) × (hs : List Hash) × (handle_tx_reject one_in_pool first ≡ ok p)
    × Rejected rank nothing_yet one_in_pool one_in_pool-Sound hs p
    × (is_exist p.mem_repo 10 ≡ false)
    × ((h : Hash) → elem h hs ≡ true → Descends one_in_pool.mem_repo 10 h)
handle_tx_reject-Rejected_example =
    handle_tx_reject-Rejected rank nothing_yet one_in_pool one_in_pool-Sound first one_in_pool-first

clear_mempool_txs-Rejected_example :
    (p : Log2Producer) × (hs : List Hash) × (clear_mempool_txs one_in_pool ≡ ok p)
    × Rejected rank nothing_yet one_in_pool one_in_pool-Sound hs p
    × (p.mem_repo.txs ≡ [])
    × (p.db.memrepo_txs ≡ [])
clear_mempool_txs-Rejected_example =
    clear_mempool_txs-Rejected rank nothing_yet one_in_pool one_in_pool-Sound

-- the tables with `first` stored, and a row of a batch that is open
abbrev stored : Db
stored = record start.db { memrepo_txs = (10, tt) ∷ []; raw_txs = (10, first) ∷ [] }

with_first-Tracks : Tracks with_first []
unfolding find
with_first-Tracks = record {
  at = λ h. ground arith;
  fresh = λ h e. refl;
  known = λ h e. cc;
  inserts_sorted = (tt, tt);
  deletes_sorted = tt;
}

sync_to_db_ok_example :
    (table : HashSet) × (sync_to_db with_first start.db
      ≡ ok (cleaned with_first, record start.db { memrepo_txs = table }))
    × ((h : Hash) → has h table ≡ is_exist with_first h)
sync_to_db_ok_example = sync_to_db_ok with_first start.db with_first-Tracks

abbrev accepted : Row
accepted = record {
  batch_id = negsuc 0;
  type = LogType.accept;
  block_height = negsuc 0;
  block_id = negsuc 0;
  max_block_timestamp = 0;
  tx_hash = 10;
}

abbrev with_row : Db
with_row = record start.db { txlogs2 = accepted ∷ [] }

Coheres-with_row : Coheres (replay nothing_yet (accepted ∷ [])) with_first
unfolding replay find
Coheres-with_row = record { at = λ h. ground arith }

Coheres-with_row' : Coheres (replay (replay nothing_yet []) (accepted ∷ [])) with_first
unfolding replay
Coheres-with_row' = Coheres-with_row

commit_batch-Sound_example :
    (p : Log2Producer) × (commit_batch start with_first with_row 1 ≡ ok p)
    × Sound rank nothing_yet p
    × (p.db.txlogs2 ≡ with_batch (next_batch_id (accepted ∷ [])) (accepted ∷ []))
    × (p.mem_repo.txs ≡ with_first.txs)
commit_batch-Sound_example =
    commit_batch-Sound rank nothing_yet start with_first with_row [] (accepted ∷ []) refl tt
      (refl, tt) with_first-Inv with_first-Tracks tt (absent_first, tt) Coheres-with_row'

stored-table : (h : Hash) → has h stored.memrepo_txs ≡ is_exist with_first h
unfolding find
stored-table h = ground arith

stored-raw :
    (h : Hash) (tx : Tx) → find h with_first.txs ≡ some tx → find h stored.raw_txs ≡ some tx
stored-raw h tx e = e

load_memrepo_txs-whole_example :
    (m : MemTxRepository) × (load_memrepo_txs stored empty ≡ ok m)
    × Inv rank m
    × ((h : Hash) → find h m.txs ≡ find h with_first.txs)
    × (m.unsync_txs_insert ≡ [])
    × (m.unsync_txs_delete ≡ [])
load_memrepo_txs-whole_example =
    load_memrepo_txs-whole rank with_first with_first-Inv stored refl stored-table stored-raw
