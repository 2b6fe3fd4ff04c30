-- ===== src/Tests/Rollback.antt =====
-- The block with `first` is taken back.
use explorer_kv.Prelude.{
  ℕ, true, not, [], ◌∷◌, ◌++◌, ◌&&◌, ◌||◌, ◌≡◌, refl, ◌==◌, elem, reverse, if◌then◌else◌, arith,
}
use explorer_kv.Prelude.Int.{ℤ, pos}
use explorer_kv.Prelude.Result.{ok}
use explorer_kv.Transaction.{Hash, Tx, Block}
use explorer_kv.OrdMap.{find}
use explorer_kv.OrdMap.Order.{nat_ord}
use explorer_kv.MemTxRepository.{is_exist}
use explorer_kv.TxLogs2.{Ledger, Status, replay}
use explorer_kv.Log2Producer.{Log2Producer}
use explorer_kv.Log2Producer.Blocks.{handle_block_rollback, first_hash}
use explorer_kv.Log2Producer.Commit.{Sound, with_batch}
use explorer_kv.Log2Producer.Tables.{find_raw_block}
use explorer_kv.Log2Producer.Run.Reload.{Inv-empty}
use explorer_kv.Log2Producer.Rollback.{hashes}
use explorer_kv.Log2Producer.Rollback.Sound.{IsTopBlock, rollback_rows, handle_block_rollback-Sound}
use explorer_kv.Tests.Data.{rank, first, start, first-IsSpendable, Tracks-empty}

abbrev coinbase : Tx
coinbase = record { hash = 5; vin = []; vout = 1; is_coinbase = true }

abbrev top_block : Block
top_block = record { hash = 44; hash_prev_block = 7; block_time = 600; vtx = coinbase ∷ first ∷ [] }

-- the ledger with which the log begins: the block is in the chain
abbrev in_chain : Ledger
in_chain h =
    if 5 == h then Status.confirmed else if 10 == h then Status.confirmed else Status.absent

abbrev at_fourth : Log2Producer
at_fourth = record start {
  blk_ts = record { limit = 11; curr_max = 600; blk_timestamps = (pos 4, 600) ∷ [] };
  curr_block_height = pos 4;
  curr_block_hash = 44;
  db = record start.db {
    raw_blocks = record { id = 1; block = top_block; block_height = pos 4; chain_id = 0 } ∷ [];
    next_block_id = 2;
  };
}

at_fourth-Sound : Sound rank in_chain at_fourth
unfolding find replay
at_fourth-Sound = record {
  inv = Inv-empty rank;
  tracks = Tracks-empty;
  nothing_deleted = refl;
  table = λ h. refl;
  settled = tt;
  legal = tt;
  coheres = record { at = λ h. ground arith };
}

top_block-IsTopBlock : IsTopBlock rank in_chain at_fourth (pos 4) top_block 5
unfolding find replay first_hash find_raw_block
top_block-IsTopBlock = record {
  first = refl;
  has_first = refl;
  confirmed = (refl, (refl, tt));
  apart = ((record { hashes = refl; inputs = λ out s. cc }, tt), (tt, tt));
  can_return = (
    record {
      coinbase = refl;
      spendable = λ regular. first-IsSpendable;
      fresh = refl;
      clashless = λ out s h t at. cc;
    },
    (
      record {
        coinbase = refl;
        spendable = λ regular. cc;
        fresh = refl;
        clashless = λ out s h t at. cc;
      },
      tt,
    ),
  );
  level = λ b at. ground (arith, at);
  stamped = λ empty. cc;
}

handle_block_rollback-Sound_example :
    (p' : Log2Producer) × (id : ℕ) × (b : ℤ) × (handle_block_rollback at_fourth (pos 4) top_block
      ≡ ok p')
    × Sound rank in_chain p'
    × (p'.db.txlogs2
        ≡ at_fourth.db.txlogs2 ++ with_batch b (rollback_rows at_fourth (pos 4) top_block 5 id))
    × ((h : Hash)
        → is_exist p'.mem_repo h ≡ (
            is_exist at_fourth.mem_repo h
            || elem h (hashes (reverse top_block.vtx)) && not (5 == h)))
handle_block_rollback-Sound_example =
    handle_block_rollback-Sound rank in_chain at_fourth at_fourth-Sound (pos 4) top_block 5
      top_block-IsTopBlock
