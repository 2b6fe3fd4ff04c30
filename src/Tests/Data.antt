-- ===== src/Tests/Data.antt =====
-- A small pool for the tests: `first` spends an old output, `child` spends `first`, and `rival` wants
-- what `first` spends.
use explorer_kv.Prelude.{ℕ, false, none, some, [], ◌∷◌, ◌≡◌, refl, sym, ap, ◌∙◌, arith, subst}
use explorer_kv.Prelude.Int.{pos}
use explorer_kv.Prelude.Result.{Result, ok, err}
use explorer_kv.Transaction.{Hash, Tx}
use explorer_kv.OrdMap.{find, set, insert}
use explorer_kv.OrdMap.Order.{nat_ord}
use explorer_kv.MemTxRepository.{empty, has_conflict, mark_spent, add_tx, add_new}
use explorer_kv.MemTxRepository.Invariant.{IsSpendable}
use explorer_kv.MemTxRepository.Unsynced.{Tracks}
use explorer_kv.TxLogs2.{Ledger, Status, replay}
use explorer_kv.Log2Producer.{Log2Producer, handle_tx_accept, finish}
use explorer_kv.Log2Producer.Tables.{
  sync_to_db, insert_memrepo, delete_batches, delete_batch, delete_memrepo,
}
use explorer_kv.Log2Producer.Commit.{Sound}
use explorer_kv.Log2Producer.Transactions.{handle_tx_accept-Sound}
use explorer_kv.Log2Producer.Run.Reload.{Inv-empty}

abbrev pub rank : Hash → ℕ
rank h = h

abbrev pub nothing_yet : Ledger
nothing_yet h = Status.absent

abbrev pub first : Tx
first = record {
  hash = 10;
  vin = record { hash = 1; position = 0 } ∷ [];
  vout = 2;
  is_coinbase = false;
}

abbrev pub child : Tx
child = record {
  hash = 20;
  vin = record { hash = 10; position = 1 } ∷ [];
  vout = 1;
  is_coinbase = false;
}

abbrev pub rival : Tx
rival = record {
  hash = 30;
  vin = record { hash = 1; position = 0 } ∷ [];
  vout = 1;
  is_coinbase = false;
}

pub first-IsSpendable : IsSpendable rank first
first-IsSpendable = record { regular = refl; distinct = (refl, tt); ranked = λ out s. ground arith }

pub child-IsSpendable : IsSpendable rank child
child-IsSpendable = record { regular = refl; distinct = (refl, tt); ranked = λ out s. ground arith }

pub rival-IsSpendable : IsSpendable rank rival
rival-IsSpendable = record { regular = refl; distinct = (refl, tt); ranked = λ out s. ground arith }

abbrev pub start : Log2Producer
start = record {
  mem_repo = empty;
  blk_ts = record { limit = 11; curr_max = 0; blk_timestamps = [] };
  log1_file_index = 0;
  curr_log1_file_offset = 80;
  written_index = none;
  written_offset = none;
  curr_block_height = pos 3;
  curr_block_hash = 7;
  db = record {
    txlogs2 = [];
    memrepo_txs = [];
    raw_blocks = [];
    next_block_id = 1;
    raw_txs = [];
    log1file_index = 0;
    log1file_offset = 0;
  };
}

pub Tracks-empty : Tracks empty []
unfolding find
Tracks-empty = record {
  at = λ h. refl;
  fresh = λ h e. cc;
  known = λ h e. cc;
  inserts_sorted = tt;
  deletes_sorted = tt;
}

pub start-Sound : Sound rank nothing_yet start
unfolding find replay
start-Sound = record {
  inv = Inv-empty rank;
  tracks = Tracks-empty;
  nothing_deleted = refl;
  table = λ h. refl;
  settled = tt;
  legal = tt;
  coheres = record { at = λ h. refl };
}

abbrev pub returned {ℓ} : {A : Type ℓ} → A → Result A → A
returned a (ok b) = b
returned a (err e) = a

-- after `first` was accepted
abbrev pub one_in_pool : Log2Producer
one_in_pool = returned start (handle_tx_accept start first)

pub one_in_pool-Sound : Sound rank nothing_yet one_in_pool
unfolding find replay
one_in_pool-Sound =
    let (p, runs, sound, at) =
      handle_tx_accept-Sound rank nothing_yet start start-Sound first first-IsSpendable
        (λ e. refl) in
    subst (Sound rank nothing_yet) (sym (ap (returned start) runs)) sound

one_in_pool_at : find 10 one_in_pool.mem_repo.txs ≡ some first
unfolding find handle_tx_accept add_tx add_new has_conflict set insert mark_spent finish sync_to_db
    insert_memrepo delete_batches delete_batch delete_memrepo
one_in_pool_at = refl

-- What stands in the pool under the hash of `first` is `first`.
pub one_in_pool-first : (t : Tx) → find 10 one_in_pool.mem_repo.txs ≡ some t → t ≡ first
one_in_pool-first t e = let same : some first ≡ some t = sym one_in_pool_at ∙ e in cc
