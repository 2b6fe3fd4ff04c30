-- ===== src/Parser/Handle.antt =====
-- jiexi/src/Parser.cc, threadHandleTxlogs: a row of 0_txlogs2 goes to its handlers, and its id is stored
-- as the last one that was consumed. `block_of` reads and decodes the row of 0_raw_blocks to which the
-- log entry points.
pub mod World
use explorer_kv.Prelude.{
  ℕ, zero, suc, true, false, Option, none, some, List, [], ◌∷◌, ◌==◌, ltb, if◌then◌else◌,
}
use explorer_kv.Prelude.Int.{ℤ, negsuc, beq_ℤ}
use explorer_kv.Prelude.Result.{Result, ok, ◌>>=◌}
use explorer_kv.Transaction.{Hash}
use explorer_kv.TxLogs2.{LogType}
use explorer_kv.Parser.Txs.{TxLog2, Parser, accept_tx, confirm_tx, unconfirm_tx, reject_tx}
use explorer_kv.Parser.Blocks.{CBlock, accept_block, reject_block}

unfoldable pub update_last_tx_log2_id : ℕ → Parser → Parser
update_last_tx_log2_id id p = record p { kvdb = record p.kvdb { txlogs_offset_id = some id } }

-- the id that is stored, or 0, which is stored then
unfoldable pub get_last_tx_log2_id : Parser → ℕ × Parser
unfolding update_last_tx_log2_id
get_last_tx_log2_id p = elim p.kvdb.txlogs_offset_id [
  | some id ↦ (id, p)
  | none ↦ (0, update_last_tx_log2_id 0 p)
]

module _ (printed : Hash → Option Hash) (get_block_value : ℤ → ℤ)
    (block_of : TxLog2 → Result CBlock) where
  -- After acceptBlock the code calls recognizeBlocks of RecognizeBlock.cc, which writes the key 15_ of the
  -- block. No handler reads that key, and the model has it not.
  unfoldable pub handle_as : LogType → TxLog2 → Parser → Result Parser
  handle_as LogType.accept log p = accept_tx log p
  handle_as LogType.confirm log p = do
    p ←
        if log.tx.is_coinbase
        then (block_of log >>= λ blk. accept_block get_block_value log blk p)
        else ok p
    confirm_tx get_block_value log p
  handle_as LogType.unconfirm log p = unconfirm_tx log p
  handle_as LogType.reject log p = do
    p ← if log.tx.is_coinbase then (block_of log >>= λ blk. reject_block log blk p) else ok p
    reject_tx printed log p

  unfoldable pub handle_txlog : TxLog2 → Parser → Result Parser
  unfolding handle_as
  handle_txlog log p = handle_as log.type log p

  -- the body of the loop: an entry without a hash is passed over
  unfoldable pub consume_txlog : TxLog2 → Parser → Result Parser
  unfolding handle_txlog update_last_tx_log2_id
  consume_txlog log p = elim (log.tx_hash == 0) [
    | true ↦ ok p
    | false ↦ handle_txlog log p >>= λ p. ok (update_last_tx_log2_id log.id p)
  ]

  unfoldable pub consume_txlogs : List TxLog2 → Parser → Result Parser
  unfolding consume_txlog
  consume_txlogs [] p = ok p
  consume_txlogs (log ∷ logs) p = consume_txlog log p >>= consume_txlogs logs

-- SELECT … WHERE `id` > lastId AND `batch_id` <> -1 ORDER BY `id` ASC LIMIT 1, on rows in the order of
-- their ids
pub record LogRow : Type 0 where
  pub batch_id : ℤ
  pub log : TxLog2

abbrev pub unconfirm_tx_timestamp : ℕ
unconfirm_tx_timestamp = 1893456000

-- an accepted transaction gets a time in the future
unfoldable pub dated : TxLog2 → TxLog2
dated log = elim log.type [
  | LogType.accept ↦ record log { max_blk_timestamp = unconfirm_tx_timestamp }
  | LogType.confirm ↦ log
  | LogType.unconfirm ↦ log
  | LogType.reject ↦ log
]

unfoldable pub try_fetch_tx_log2 : ℕ → List LogRow → Option TxLog2
unfolding dated
try_fetch_tx_log2 last_id [] = none
try_fetch_tx_log2 last_id (r ∷ rows) =
    let rest = try_fetch_tx_log2 last_id rows in
    if ltb last_id r.log.id
    then if beq_ℤ r.batch_id (negsuc 0) then rest else some (dated r.log)
    else rest

-- the loop of `threadProduceTxlogs`: what it hands over before it waits for new rows
unfoldable pub produce_txlogs : ℕ → ℕ → List LogRow → List TxLog2
unfolding try_fetch_tx_log2
produce_txlogs zero last_id rows = []
produce_txlogs (suc rounds) last_id rows = elim (try_fetch_tx_log2 last_id rows) [
  | none ↦ []
  | some log ↦ log ∷ produce_txlogs rounds log.id rows
]
