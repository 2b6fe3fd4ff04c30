-- ===== src/Log2Producer.antt =====
-- jiexi/src/Log2Producer.{h,cc}, Log2Producer: each item of log1 changes the memory pool and appends
-- rows to 0_txlogs2. A handler returns the new state, or stops the program. The proofs are in the
-- modules below, the tables in `Tables`, and the handlers of blocks in `Blocks`.
pub mod Tables
pub mod Sync
pub mod Commit
pub mod Conflicts
pub mod Transactions
pub mod Clear
pub mod Blocks
pub mod Run
pub mod RawBlocks
pub mod Rollback
use explorer_kv.Prelude.{
  ℕ, zero, suc, Bool, true, false, not, ◌||◌, Option, none, some, List, [], ◌∷◌, ◌++◌, map, reverse,
  if◌then◌else◌, ltb, ◌==◌, length, elem, all_distinct,
}
use explorer_kv.Prelude.Int.{ℤ, pos, negsuc, succ, beq_ℤ, ltb_ℤ}
use explorer_kv.Prelude.Result.{
  Result, ok, err, exception, assertion, out_of_fuel, unmodelled, ◌>>=◌, ◌>>◌, guard,
}
use explorer_kv.Transaction.{Hash, Tx, Block}
use explorer_kv.MemTxRepository
use explorer_kv.MemTxRepository.{
  MemTxRepository, is_exist, add_tx, get_conflict_tx, remove_tx, remove_txs, remove_last_tx,
  remove_tx_and_child_tx,
}
use explorer_kv.BlockTimestamp.{BlockTimestamp, get_max_timestamp, push_block, pop_block}
use explorer_kv.TxLogs2.{Row, LogType, reject_rows}
use Tables.{
  Db, RawBlock, sync_to_db, next_batch_id, close_rows, checked, insert_raw_tx, insert_raw_txs,
  insert_raw_block, find_raw_block,
}

pub record Log2Producer : Type 0 where
  pub mem_repo : MemTxRepository
  pub blk_ts : BlockTimestamp
  pub log1_file_index : ℕ
  pub curr_log1_file_offset : ℕ
  -- the static variables of `updateLog1FileStatus`, `none` for -1
  pub written_index : Option ℕ
  pub written_offset : Option ℕ
  pub curr_block_height : ℤ
  pub curr_block_hash : Hash
  pub db : Db

abbrev pub differs : Option ℕ → ℕ → Bool
differs none n = true
differs (some k) n = not (k == n)

unfoldable pub update_log1_file_status : Log2Producer → Db → Log2Producer
update_log1_file_status p db = record p {
  written_index = some p.log1_file_index;
  written_offset = some p.curr_log1_file_offset;
  db = record db {
    log1file_index =
        if differs p.written_index p.log1_file_index then p.log1_file_index else db.log1file_index;
    log1file_offset =
        if differs p.written_offset p.curr_log1_file_offset
        then p.curr_log1_file_offset
        else db.log1file_offset;
  };
}

-- multiInsert into 0_txlogs2
unfoldable pub append_rows : Db → List Row → Db
append_rows db rows = record db { txlogs2 = db.txlogs2 ++ rows }

-- The end of a transaction: syncToDB, updateLog1FileStatus, COMMIT.
unfoldable pub finish : Log2Producer → MemTxRepository → Db → Result Log2Producer
unfolding update_log1_file_status
finish p m db = do
  (m', db') ← sync_to_db m db
  ok (update_log1_file_status (record p { mem_repo = m' }) db')

unfoldable pub commit_batch : Log2Producer → MemTxRepository → Db → ℕ → Result Log2Producer
commit_batch p m db expect_affected_rows = do
  rows ← checked expect_affected_rows (close_rows (next_batch_id db.txlogs2) db.txlogs2)
  finish p m (record db { txlogs2 = rows })

unfoldable pub accept_row : ℤ → ℕ → Hash → Row
accept_row batch_id max_ts h = record {
  batch_id = batch_id;
  type = LogType.accept;
  block_height = negsuc 0;
  block_id = negsuc 0;
  max_block_timestamp = max_ts;
  tx_hash = h;
}

-- a row of a block: its height and its id are known
unfoldable pub block_row : LogType → ℤ → ℕ → ℕ → Hash → Row
block_row type height block_id max_ts h = record {
  batch_id = negsuc 0;
  type = type;
  block_height = height;
  block_id = pos block_id;
  max_block_timestamp = max_ts;
  tx_hash = h;
}

unfoldable pub handle_tx_accept : Log2Producer → Tx → Result Log2Producer
unfolding accept_row insert_raw_tx append_rows
handle_tx_accept p tx = if is_exist p.mem_repo tx.hash then ok p else do
  (m, res) ← add_tx p.mem_repo tx
  if not res then ok (record p { mem_repo = m }) else do
    let db = insert_raw_tx p.db tx
    let row = accept_row (next_batch_id db.txlogs2) (get_max_timestamp p.blk_ts) tx.hash
    finish p m (append_rows db (row ∷ []))

unfoldable pub handle_tx_reject : Log2Producer → Tx → Result Log2Producer
unfolding insert_raw_tx append_rows
handle_tx_reject p tx = if not (is_exist p.mem_repo tx.hash) then ok p else do
  let db = insert_raw_tx p.db tx
  (m, hs) ← remove_tx_and_child_tx (suc (MemTxRepository.size p.mem_repo)) p.mem_repo tx
  commit_batch p m (append_rows db (reject_rows hs)) (length hs)

-- `while (addTx(tx) == false)`: the conflicting transactions, in the order of their removal
unfoldable pub resolve_conflicts : ℕ → MemTxRepository → Tx → Result (MemTxRepository × List Hash)
resolve_conflicts zero m tx = err out_of_fuel
resolve_conflicts (suc fuel) m tx = do
  (m1, added) ← add_tx m tx
  elim added [
    | true ↦ ok (m1, [])
    | false ↦ do
      h ← get_conflict_tx m1 tx
      guard (not (h == tx.hash)) assertion
      m2 ← remove_tx m1 h
      (m3, hs) ← resolve_conflicts fuel m2 tx
      ok (m3, h ∷ hs)
  ]

-- the loop of `clearMempoolTxs`
unfoldable pub drain : ℕ → MemTxRepository → Result (MemTxRepository × List Hash)
drain zero m = if MemTxRepository.size m == 0 then ok (m, []) else err out_of_fuel
drain (suc fuel) m = elim (MemTxRepository.size m) [
  | zero ↦ ok (m, [])
  | suc _ ↦ do (m1, h) ← remove_last_tx m; (m2, hs) ← drain fuel m1; ok (m2, h ∷ hs)
]

unfoldable pub clear_mempool_txs : Log2Producer → Result Log2Producer
unfolding append_rows
clear_mempool_txs p = do
  (m, hs) ← drain (MemTxRepository.size p.mem_repo) p.mem_repo
  p' ← commit_batch p m (append_rows p.db (reject_rows hs)) (length hs)
  guard (length p'.db.memrepo_txs == 0) exception
  ok p'
