-- ===== src/Tests/Blocks.antt =====
-- A block with a coinbase and `first`, on the producer that has seen nothing.
use explorer_kv.Prelude.{true, [], ◌∷◌, ◌≡◌, refl}
use explorer_kv.Prelude.Int.{pos}
use explorer_kv.Prelude.Result.{ok}
use explorer_kv.Transaction.{Tx, Block}
use explorer_kv.OrdMap.{find, set, insert, erase, erase_first}
use explorer_kv.BlockTimestamp.{push_block, trim}
use explorer_kv.MemTxRepository.{
  add_tx, add_new, has_conflict, mark_spent, remove_tx, remove_txs, unmark_spent,
}
use explorer_kv.Log2Producer.{
  Log2Producer, append_rows, accept_row, block_row, resolve_conflicts, commit_batch, finish,
  update_log1_file_status,
}
use explorer_kv.Log2Producer.Blocks.{
  gather, confirm_rows, handle_block_accept, handle_direction, handle_block,
}
use explorer_kv.Log2Producer.Tables.{
  Db, sync_to_db, insert_memrepo, delete_batches, delete_batch, delete_memrepo, next_batch_id,
  max_batch, close_rows, insert_raw_tx, insert_raw_txs, find_raw_block, bump_chain_ids,
  insert_raw_block,
}
use explorer_kv.Log2Producer.RawBlocks.{IsStored, insert_raw_block-IsStored}
use explorer_kv.Log2Producer.Run.{sync_log1}
use explorer_kv.Log2Producer.Run.Resume.{IsWritten, finish-IsWritten}
use explorer_kv.Tests.Data.{first, start, returned}
use explorer_kv.Tests.Pool.{with_first}

abbrev coinbase : Tx
coinbase = record { hash = 5; vin = []; vout = 1; is_coinbase = true }

abbrev fourth : Block
fourth = record { hash = 44; hash_prev_block = 7; block_time = 600; vtx = coinbase ∷ first ∷ [] }

abbrev after_fourth : Log2Producer
after_fourth = returned start (handle_block start (pos 4) fourth)

takes_fourth : handle_block start (pos 4) fourth ≡ ok after_fourth
unfolding find set insert erase erase_first push_block trim add_tx add_new has_conflict mark_spent
    remove_tx remove_txs unmark_spent append_rows accept_row block_row gather resolve_conflicts
    confirm_rows handle_block_accept handle_direction handle_block commit_batch finish
    update_log1_file_status sync_to_db insert_memrepo delete_batches delete_batch delete_memrepo
    next_batch_id max_batch close_rows insert_raw_tx insert_raw_txs find_raw_block bump_chain_ids
    insert_raw_block
takes_fourth = refl

abbrev with_fourth : Db
with_fourth = record start.db {
  raw_blocks = record { id = 1; block = fourth; block_height = pos 4; chain_id = 0 } ∷ [];
  next_block_id = 2;
}

stores_fourth : insert_raw_block start.db fourth (pos 4) ≡ ok (with_fourth, 1)
unfolding insert_raw_block find_raw_block bump_chain_ids
stores_fourth = refl

insert_raw_block-IsStored_example :
    IsStored with_fourth fourth (pos 4) 1
    × (insert_raw_block with_fourth fourth (pos 4) ≡ ok (with_fourth, 1))
insert_raw_block-IsStored_example =
    insert_raw_block-IsStored start.db with_fourth fourth (pos 4) 1 stores_fourth

start-IsWritten : IsWritten start start.db
start-IsWritten = record { index = λ n e. cc; offset = λ n e. cc }

abbrev finished : Log2Producer
finished = returned start (finish start with_first start.db)

finishes : finish start with_first start.db ≡ ok finished
unfolding finish sync_to_db insert_memrepo delete_batches delete_batch delete_memrepo find set
finishes = refl

finish-IsWritten_example :
    (sync_log1 finished.db ≡ record { file_index = 0; file_offset = 80 })
    × IsWritten finished finished.db
finish-IsWritten_example =
    finish-IsWritten start finished with_first start.db start-IsWritten finishes
