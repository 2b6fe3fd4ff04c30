-- ===== src/Log2Producer/Tables.antt =====
-- The MySQL tables that log2producer writes, and the statements that it sends, read as SQL reads
-- them (install/generate_initialize_sql.sh gives the tables and their unique keys). Dates are left
-- out. A statement that fails, and `updateOrThrowEx` on a wrong count, throw.
use explorer_kv.Prelude.{
  ℕ, suc, Bool, not, ◌||◌, Option, none, some, List, [], ◌∷◌, ◌++◌, map, if◌then◌else◌, ltb, ◌==◌,
  length,
}
use explorer_kv.Prelude.Int.{ℤ, pos, negsuc, succ, beq_ℤ, ltb_ℤ}
use explorer_kv.Prelude.Result.{Result, ok, exception, assertion, ◌>>=◌, ◌>>◌, guard}
use explorer_kv.Transaction.{Hash, Tx, Block}
use explorer_kv.OrdMap.{Map, has, insert, erase, set}
use explorer_kv.OrdMap.Order.{nat_ord}
use explorer_kv.MemTxRepository.{MemTxRepository}
use explorer_kv.TxLogs2.{Row}

pub record RawBlock : Type 0 where
  pub id : ℕ
  pub block : Block
  pub block_height : ℤ
  pub chain_id : ℕ

pub record Db : Type 0 where
  -- 0_txlogs2, in the order of `id`
  pub txlogs2 : List Row
  -- 0_memrepo_txs, a set: the column `position` is left out, with the order that it gives
  pub memrepo_txs : Map Hash (Unit {0})
  -- 0_raw_blocks, and its AUTO_INCREMENT
  pub raw_blocks : List RawBlock
  pub next_block_id : ℕ
  -- raw_txs_0000 to raw_txs_0063
  pub raw_txs : Map Hash Tx
  -- 0_explorer_meta: log2producer.log1file.index and .offset
  pub log1file_index : ℕ
  pub log1file_offset : ℕ

-- INSERT INTO `0_memrepo_txs`: the hash is a unique key
unfoldable pub insert_memrepo : List Hash → Map Hash (Unit {0}) → Result (Map Hash (Unit {0}))
insert_memrepo [] table = ok table
insert_memrepo (h ∷ hs) table = do
  guard (not (has h table)) exception
  insert_memrepo hs (set h tt table)

-- DELETE FROM `0_memrepo_txs` WHERE `tx_hash` IN (…): the table and the number of rows deleted
unfoldable pub delete_memrepo : List Hash → Map Hash (Unit {0}) → Map Hash (Unit {0}) × ℕ
delete_memrepo [] table = (table, 0)
delete_memrepo (h ∷ hs) table =
    let (rest, n) = delete_memrepo hs (erase h table) in (rest, if has h table then suc n else n)

-- updateOrThrowEx(sql, expected) on the outcome of a statement: 0 expects nothing
abbrev pub checked {ℓ} : {A : Type ℓ} → ℕ → A × ℕ → Result A
checked expected r = do guard (expected == 0 || r.1 == expected) exception; ok r.0

unfoldable pub delete_batch : List Hash → Map Hash (Unit {0}) → Result (Map Hash (Unit {0}))
unfolding delete_memrepo
delete_batch batch table = checked (length batch) (delete_memrepo batch table)

-- The loop over `unSyncTxsDelete_`: a batch goes out when it has more than 5000 hashes.
unfoldable pub delete_batches :
    ℕ → List Hash → List Hash → Map Hash (Unit {0}) → Result (Map Hash (Unit {0}))
unfolding delete_batch
delete_batches max batch [] table = delete_batch batch table
delete_batches max batch (h ∷ hs) table =
    let batch' = batch ++ h ∷ [] in
    let keep = delete_batches max batch' hs table in
    let flush = delete_batch batch' table >>= delete_batches max [] hs in
    if ltb max (length batch') then flush else keep

abbrev pub keys {ℓ} : {V : Type ℓ} → Map Hash V → List Hash
keys = map (λ e. e.0)

-- MemTxRepository::syncToDB
unfoldable pub sync_to_db : MemTxRepository → Db → Result (MemTxRepository × Db)
unfolding insert_memrepo delete_batches
sync_to_db m db = do
  inserted ← insert_memrepo (keys m.unsync_txs_insert) db.memrepo_txs
  table ← delete_batches 5000 [] (keys m.unsync_txs_delete) inserted
  ok (
    record m { unsync_txs_insert = []; unsync_txs_delete = [] },
    record db { memrepo_txs = table },
  )

-- SELECT IFNULL(MAX(`batch_id`), 0) + 1 FROM `0_txlogs2`
unfoldable pub max_batch : List Row → Option ℤ
max_batch [] = none
max_batch (r ∷ rows) = elim (max_batch rows) [
  | none ↦ some r.batch_id
  | some b ↦ some (if ltb_ℤ b r.batch_id then r.batch_id else b)
]

unfoldable pub next_batch_id : List Row → ℤ
unfolding max_batch
next_batch_id rows = elim (max_batch rows) [ none ↦ pos 1 | some b ↦ succ b ]

-- `batch_id` = -1
abbrev pub is_open : Row → Bool
is_open r = beq_ℤ r.batch_id (negsuc 0)

-- UPDATE `0_txlogs2` SET `batch_id` = b WHERE `batch_id` = -1: the rows and the number changed
unfoldable pub close_rows : ℤ → List Row → List Row × ℕ
close_rows b [] = ([], 0)
close_rows b (r ∷ rows) =
    let (rest, n) = close_rows b rows in
    if is_open r then (record r { batch_id = b } ∷ rest, suc n) else (r ∷ rest, n)

-- DELETE FROM `0_txlogs2` WHERE `batch_id` = -1
unfoldable pub delete_open : List Row → List Row
delete_open [] = []
delete_open (r ∷ rows) = let rest = delete_open rows in if is_open r then rest else r ∷ rest

-- insertRawTx: nothing for a hash that is there
unfoldable pub insert_raw_tx : Db → Tx → Db
insert_raw_tx db tx = record db { raw_txs = insert tx.hash tx db.raw_txs }

unfoldable pub insert_raw_txs : Db → List Tx → Db
insert_raw_txs db [] = db
insert_raw_txs db (tx ∷ txs) = insert_raw_txs (insert_raw_tx db tx) txs

unfoldable pub find_raw_block : Hash → List RawBlock → Option RawBlock
find_raw_block h [] = none
find_raw_block h (b ∷ bs) = if b.block.hash == h then some b else find_raw_block h bs

-- UPDATE `0_raw_blocks` SET `chain_id` = `chain_id` + 1 for the rows of the height
unfoldable pub bump_chain_ids : ℤ → List RawBlock → List RawBlock
bump_chain_ids height [] = []
bump_chain_ids height (b ∷ bs) =
    (if beq_ℤ b.block_height height then record b { chain_id = suc b.chain_id } else b)
    ∷ bump_chain_ids height bs

-- insertRawBlock: the tables and the id of the block
unfoldable pub insert_raw_block : Db → Block → ℤ → Result (Db × ℕ)
unfolding find_raw_block bump_chain_ids
insert_raw_block db blk height = elim (find_raw_block blk.hash db.raw_blocks) [
  | some b ↦ do guard (beq_ℤ b.block_height height) assertion; ok (db, b.id)
  | none ↦ ok (
    record db {
      raw_blocks =
          bump_chain_ids height db.raw_blocks
          ++ record { id = db.next_block_id; block = blk; block_height = height; chain_id = 0 }
            ∷ [];
      next_block_id = suc db.next_block_id;
    },
    db.next_block_id,
  )
]
