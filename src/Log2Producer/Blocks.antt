-- ===== src/Log2Producer/Blocks.antt =====
-- handleBlock, handleBlockAccept and handleBlockRollback (jiexi/src/Log2Producer.cc).
use explorer_kv.Prelude.{
  ℕ, suc, true, false, none, some, List, [], ◌∷◌, ◌++◌, map, reverse, if◌then◌else◌, ◌==◌, length,
  elem, all_distinct,
}
use explorer_kv.Prelude.Int.{ℤ, negsuc, succ, beq_ℤ, ltb_ℤ}
use explorer_kv.Prelude.Result.{
  Result, ok, err, exception, assertion, unmodelled, ◌>>=◌, ◌>>◌, guard,
}
use explorer_kv.Transaction.{Hash, Tx, Block}
use explorer_kv.MemTxRepository
use explorer_kv.MemTxRepository.{
  MemTxRepository, is_exist, add_tx, get_conflict_tx, remove_tx, remove_txs, remove_last_tx,
  remove_tx_and_child_tx,
}
use explorer_kv.BlockTimestamp.{get_max_timestamp, push_block, pop_block}
use explorer_kv.TxLogs2.{Row, LogType, reject_rows}
use explorer_kv.Log2Producer.Tables.{insert_raw_txs, insert_raw_block, find_raw_block}
use explorer_kv.Log2Producer.{
  Log2Producer, append_rows, accept_row, block_row, resolve_conflicts, commit_batch,
}

-- What the first loop of `handleBlockAccept` gathers.
pub record Gathered : Type 0 where
  pub repo : MemTxRepository
  pub tx_hashs : List Hash
  pub already_in_mem : List Hash
  pub conflict_txs : List Hash

unfoldable pub gather : MemTxRepository → List Tx → Result Gathered
gather m [] = ok (record { repo = m; tx_hashs = []; already_in_mem = []; conflict_txs = [] })
gather m (tx ∷ txs) = elim tx.is_coinbase [
  | true ↦ gather m txs
  | false ↦ elim (is_exist m tx.hash) [
    | true ↦ do
      g ← gather m txs
      ok (record g { tx_hashs = tx.hash ∷ g.tx_hashs; already_in_mem = tx.hash ∷ g.already_in_mem })
    | false ↦ do
      (m1, hs) ← resolve_conflicts (suc (MemTxRepository.size m)) m tx
      g ← gather m1 txs
      ok (record g { tx_hashs = tx.hash ∷ g.tx_hashs; conflict_txs = hs ++ g.conflict_txs })
  ]
]

-- the rows of a new block: an accept for what was not in the pool, and a confirm
unfoldable pub confirm_rows : List Hash → ℤ → ℕ → ℕ → List Tx → List Row
unfolding accept_row block_row
confirm_rows already height block_id max_ts [] = []
confirm_rows already height block_id max_ts (tx ∷ txs) =
    let confirm = block_row LogType.confirm height block_id max_ts tx.hash in
    let rest = confirm ∷ confirm_rows already height block_id max_ts txs in
    if elem tx.hash already then rest else accept_row (negsuc 0) max_ts tx.hash ∷ rest

unfoldable pub handle_block_accept : Log2Producer → ℤ → Block → Result Log2Producer
unfolding append_rows
handle_block_accept p height blk = do
  ts ← push_block p.blk_ts height blk.block_time
  g ← gather p.mem_repo blk.vtx
  -- conflictTxsSet.size() == conflictTxs.size()
  guard (all_distinct g.conflict_txs) assertion
  m ← remove_txs g.repo g.tx_hashs
  (db, block_id) ← insert_raw_block p.db blk height
  let rows =
      reject_rows g.conflict_txs
      ++ confirm_rows g.already_in_mem height block_id (get_max_timestamp ts) blk.vtx
  commit_batch (record p { blk_ts = ts }) m (append_rows (insert_raw_txs db blk.vtx) rows)
      (length rows)

-- the first loop of `handleBlockRollback`, on the reversed list
unfoldable pub re_add : MemTxRepository → List Tx → Result MemTxRepository
re_add m [] = ok m
re_add m (tx ∷ txs) = elim tx.is_coinbase [
  | true ↦ re_add m txs
  | false ↦ do (m1, added) ← add_tx m tx; guard added exception; re_add m1 txs
]

-- blk.vtx[0]
unfoldable pub first_hash : List Tx → Result Hash
first_hash [] = err unmodelled
first_hash (tx ∷ txs) = ok tx.hash

unfoldable pub handle_block_rollback : Log2Producer → ℤ → Block → Result Log2Producer
unfolding append_rows block_row first_hash
handle_block_rollback p height blk = do
  let back = reverse blk.vtx
  m ← re_add p.mem_repo back
  (db, block_id) ← insert_raw_block p.db blk height
  coinbase ← first_hash blk.vtx
  let row =
      λ (type : LogType) (h : Hash). block_row type height block_id (get_max_timestamp p.blk_ts) h
  let rows = map (λ tx. row LogType.unconfirm tx.hash) back ++ row LogType.reject coinbase ∷ []
  ts ← pop_block p.blk_ts
  commit_batch (record p { blk_ts = ts }) m (append_rows db rows) (length rows)

-- `_getBlockByHash` on the table, then the handler of the direction
unfoldable pub handle_direction : Log2Producer → ℤ → Block → Result Log2Producer
handle_direction p height blk =
    if ltb_ℤ p.curr_block_height height
    then (do
      guard (beq_ℤ height (succ p.curr_block_height)) assertion
      handle_block_accept p height blk)
    else if ltb_ℤ height p.curr_block_height
    then (do
      guard (beq_ℤ (succ height) p.curr_block_height) assertion
      elim (find_raw_block p.curr_block_hash p.db.raw_blocks) [
        | none ↦ err assertion
        | some raw ↦ do
          guard (raw.block.hash_prev_block == blk.hash) assertion
          handle_block_rollback p p.curr_block_height raw.block
      ])
    else err exception

unfoldable pub handle_block : Log2Producer → ℤ → Block → Result Log2Producer
handle_block p height blk = do
  p' ← handle_direction p height blk
  ok (record p' { curr_block_height = height; curr_block_hash = blk.hash })
