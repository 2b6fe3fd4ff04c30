-- ===== src/Log2Producer/Run.antt =====
-- Log2Producer: `initLog2` and `syncLog1` restore the state from the tables, `run` takes the lines of
-- log1 one by one. The key-value store of tparser enters by the values that it returns.
pub mod Reload
pub mod Resume
use explorer_kv.Prelude.{
  ℕ, zero, suc, ◌+◌, Bool, true, false, not, ◌||◌, Option, none, some, List, [], ◌∷◌, if◌then◌else◌,
  ltb, ◌==◌, length,
}
use explorer_kv.Prelude.Int.{ℤ, pos, beq_ℤ, ltb_ℤ}
use explorer_kv.Prelude.Result.{Result, ok, err, exception, assertion, ◌>>=◌, ◌>>◌, guard}
use explorer_kv.Transaction.{Hash, Tx}
use explorer_kv.OrdMap.{Map, find}
use explorer_kv.OrdMap.Order.{nat_ord}
use explorer_kv.MemTxRepository.{MemTxRepository, add_tx, ignore_unsync_data}
use explorer_kv.BlockTimestamp.{BlockTimestamp, push_block}
use explorer_kv.Log1.{Text, Codec, ItemType, is_type, parse, get_tx, get_block}
use explorer_kv.LogFile.{Files, Place, try_read}
use explorer_kv.Log2Producer.{Log2Producer, handle_tx_accept, handle_tx_reject, clear_mempool_txs}
use explorer_kv.Log2Producer.Blocks.{handle_block}
use explorer_kv.Log2Producer.Tables.{Db, keys, delete_open}

-- The loop of _initLog2_loadMemrepoTxs. getTxHexByHash throws for a transaction that is missing.
unfoldable pub load_txs : Map Hash Tx → List Hash → MemTxRepository → Result MemTxRepository
load_txs raw [] m = ok m
load_txs raw (h ∷ hs) m = elim (find h raw) [
  | none ↦ err exception
  | some tx ↦ do (m', added) ← add_tx m tx; guard added exception; load_txs raw hs m'
]

unfoldable pub load_memrepo_txs : Db → MemTxRepository → Result MemTxRepository
unfolding load_txs
load_memrepo_txs db m = do
  m' ← load_txs db.raw_txs (keys db.memrepo_txs) m
  ok (ignore_unsync_data m')

unfoldable pub load_timestamps : List (ℤ × ℕ) → BlockTimestamp → Result BlockTimestamp
load_timestamps [] b = ok b
load_timestamps ((height, ts) ∷ blocks) b = push_block b height ts >>= load_timestamps blocks

-- What initLog2 reads from the configuration and from the store that tparser keeps.
pub record Parsed : Type 0 where
  -- 90_tparser_txlogs_offset_id, and the greatest id of 0_txlogs2; 0 if there is none
  pub consumed_id : ℕ
  pub last_id : ℕ
  -- the latest block of the store, and the configured one for an empty log
  pub latest : ℤ × Hash
  pub configured : ℤ × Hash
  -- the heights and timestamps of the latest blocks
  pub timestamps : List (ℤ × ℕ)

unfoldable pub init_log2 : Parsed → Log2Producer → Result Log2Producer
unfolding load_memrepo_txs load_timestamps
init_log2 k p = do
  let db = record p.db { txlogs2 = delete_open p.db.txlogs2 }
  guard (k.consumed_id == k.last_id) exception
  let begin = if ltb 0 k.last_id then k.latest else k.configured
  guard (not (begin.1 == 0 || ltb_ℤ begin.0 (pos 0))) exception
  m ← load_memrepo_txs db p.mem_repo
  ts ← load_timestamps k.timestamps p.blk_ts
  ok (record p {
    db = db;
    mem_repo = m;
    blk_ts = ts;
    curr_block_height = begin.0;
    curr_block_hash = begin.1;
  })

-- syncLog1: the place of log1 that the last transaction stored
unfoldable pub sync_log1 : Db → Place
sync_log1 db = record { file_index = db.log1file_index; file_offset = db.log1file_offset }

-- one line in `run`, with the offset behind it
unfoldable pub handle_line : Codec → Log2Producer → Text → ℕ → Result Log2Producer
handle_line c p line offset = do
  let q = record p { curr_log1_file_offset = offset }
  item ← parse c line
  if is_type ItemType.accept_tx item
      then (get_tx c item >>= handle_tx_accept q)
      else if is_type ItemType.remove_tx item
      then (get_tx c item >>= handle_tx_reject q)
      else if is_type ItemType.block item
      then (get_block c item >>= handle_block q item.block_height)
      else if is_type ItemType.clear_memtxs item
      then clear_mempool_txs q
      else err exception

-- the lines that were read from `offset` on
unfoldable pub handle_lines : Codec → ℕ → Log2Producer → List Text → Result Log2Producer
handle_lines c offset p [] = ok p
handle_lines c offset p (line ∷ lines) =
    let next = offset + suc (length line) in
    handle_line c p line next >>= λ q. handle_lines c next q lines

-- one round of `run`, from the place up to which log1 was read
unfoldable pub run_round :
    Codec → ℕ → Files → Place → Log2Producer → Result (Log2Producer × Place × Files)
run_round c keep files at p = do
  (lines, at', files') ← try_read keep files at
  q ← handle_lines c at.file_offset (record p { log1_file_index = at'.file_index }) lines
  ok (q, at', files')
