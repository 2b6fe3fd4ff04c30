-- ===== src/Parser/Blocks.antt =====
-- jiexi/src/Parser.cc: the blocks in the key-value database, and the loop that hands the rows of
-- 0_txlogs2 to the handlers. A block comes decoded from its row of 0_raw_blocks.
pub mod Batches
pub mod Untouched
use explorer_kv.Prelude.{
  ℕ, suc, ◌/◌, ◌%◌, true, false, Option, none, some, List, [], ◌∷◌, ◌++◌, not, if◌then◌else◌, ◌==◌,
}
use explorer_kv.Prelude.Int.{ℤ, pos, ◌-ℤ◌, ltb_ℤ}
use explorer_kv.Prelude.Result.{Result, ok, err, assertion, ◌>>=◌, ◌>>◌, guard}
use explorer_kv.Transaction.{Hash}
use explorer_kv.OrdMap.{Map, find, set, erase}
use explorer_kv.OrdMap.Order.{nat_ord, int_ord}
use explorer_kv.Parser.Address.{get}
use explorer_kv.Parser.Kvdb.{CTransaction, BlockObject, Kvdb}
use explorer_kv.Parser.Balance.{get_value_out}
use explorer_kv.Parser.Txs.{TxLog2, Parser, block_accept, block_reject}

pub record CBlock : Type 0 where
  pub hash : Hash
  pub hash_prev_block : Hash
  pub time : ℕ
  pub vtx : List CTransaction

-- blk.vtx[0].GetValueOut(): a block has its coinbase
abbrev coinbase_value : List CTransaction → Result ℤ
coinbase_value [] = err assertion
coinbase_value (tx ∷ vtx) = get_value_out tx.vout

abbrev count_txs : List CTransaction → ℕ
count_txs [] = 0
count_txs (tx ∷ vtx) = suc (count_txs vtx)

-- the hashes of 64 characters that a value is made of, as a std::set
abbrev pub to_set : List Hash → Map Hash (Unit {0})
to_set [] = []
to_set (h ∷ hs) = set h tt (to_set hs)

abbrev pub keys : Map Hash (Unit {0}) → List Hash
keys [] = []
keys ((h, _) ∷ m) = h ∷ keys m

unfoldable pub remove_orphan_block_hash : Hash → List Hash → List Hash
remove_orphan_block_hash h value = keys (erase h (to_set value))

unfoldable pub insert_orphan_block_hash : Hash → List Hash → List Hash
insert_orphan_block_hash h [] = h ∷ []
insert_orphan_block_hash h (j ∷ value) = keys (set h tt (to_set (j ∷ value)))

-- getMayNotExist leaves the value empty.
abbrev pub or_empty {ℓ} : {A : Type ℓ} → Option (List A) → List A
or_empty none = []
or_empty (some xs) = xs

unfoldable pub last_batch : ℕ → List Hash → Map ℕ (List Hash) → Map ℕ (List Hash)
last_batch n [] m = m
last_batch n (h ∷ value) m = set n (h ∷ value) m

-- a batch is written when it is full, under the number that `i` gives, and the rest at the end
unfoldable pub insert_batches :
    ℕ → ℕ → List Hash → List CTransaction → Map ℕ (List Hash) → Map ℕ (List Hash)
unfolding last_batch
insert_batches size i value [] m = last_batch (i / size) value m
insert_batches size i value (tx ∷ vtx) m =
    let value' = value ++ tx.hash ∷ [] in
    let full = insert_batches size (suc i) [] vtx (set (i / size) value' m) in
    let more = insert_batches size (suc i) value' vtx m in if suc i % size == 0 then full else more

unfoldable pub insert_block_txs : CBlock → Kvdb → Kvdb
unfolding insert_batches
insert_block_txs blk k = record k {
  block_txs =
      set blk.hash (insert_batches 500 0 [] blk.vtx (or_empty (find blk.hash k.block_txs)))
        k.block_txs;
}

-- the previous block gets the hash of its next one
unfoldable pub set_next_block_hash : Hash → Hash → Kvdb → Result Kvdb
set_next_block_hash prev next k = do
  b ← get (find prev k.block_objects)
  ok (record k { block_objects = set prev (record b { next_block_hash = next }) k.block_objects })

-- the entries 14_ of one timestamp
abbrev set_timestamp : ℕ → ℤ → Hash → Map ℕ (Map ℤ Hash) → Map ℕ (Map ℤ Hash)
set_timestamp time height h m = set time (set height h (or_empty (find time m))) m

abbrev erase_timestamp : ℕ → ℤ → Map ℕ (Map ℤ Hash) → Map ℕ (Map ℤ Hash)
erase_timestamp time height m = set time (erase height (or_empty (find time m))) m

unfoldable pub accept_orphan : Hash → ℤ → Kvdb → Kvdb
unfolding remove_orphan_block_hash
accept_orphan h height k = elim (find height k.block_orphans) [
  | none ↦ k
  | some value ↦ elim (remove_orphan_block_hash h value) [
    | [] ↦ record k { block_orphans = erase height k.block_orphans }
    | j ∷ rest ↦ record k { block_orphans = set height (j ∷ rest) k.block_orphans }
  ]
]

-- GetBlockValue(height, 0) of the Bitcoin sources
module _ (get_block_value : ℤ → ℤ) where
  unfoldable pub insert_block : CBlock → ℤ → ℕ → Kvdb → Result Kvdb
  unfolding set_next_block_hash
  insert_block blk height max_timestamp k = do
    value ← coinbase_value blk.vtx
    let reward_fees = value -ℤ get_block_value height
    guard (not (ltb_ℤ reward_fees (pos 0))) assertion
    let b : BlockObject = record {
      height = height;
      prev_block_hash = blk.hash_prev_block;
      next_block_hash = 0;
      reward_block = get_block_value height;
      reward_fees = reward_fees;
      timestamp = blk.time;
      tx_count = count_txs blk.vtx;
      is_orphan = false;
      curr_max_timestamp = max_timestamp;
    }
    let k = record k {
      block_objects = set blk.hash b k.block_objects;
      block_heights = set height blk.hash k.block_heights;
    }
    if ltb_ℤ (pos 0) height then set_next_block_hash blk.hash_prev_block blk.hash k else ok k

  unfoldable pub accept_block_kvdb : TxLog2 → CBlock → Kvdb → Result Kvdb
  unfolding insert_block insert_block_txs accept_orphan
  accept_block_kvdb log blk k = do
    k ← insert_block blk log.blk_height log.max_blk_timestamp k
    let k = accept_orphan blk.hash log.blk_height (insert_block_txs blk k)
    ok (record k {
      block_timestamps =
          set_timestamp log.max_blk_timestamp log.blk_height blk.hash k.block_timestamps;
    })

  unfoldable pub accept_block : TxLog2 → CBlock → Parser → Result Parser
  unfolding accept_block_kvdb
  accept_block log blk p = do
    k ← accept_block_kvdb log blk p.kvdb
    ok (record p {
      kvdb = k;
      curr_block_height = log.blk_height;
      notify_log = p.notify_log ++ block_accept blk.hash log.blk_height ∷ [];
    })

unfoldable pub reject_block_kvdb : TxLog2 → CBlock → Kvdb → Result Kvdb
unfolding set_next_block_hash insert_orphan_block_hash
reject_block_kvdb log blk k = do
  let height = log.blk_height
  let k = record k {
    block_orphans =
        set height (insert_orphan_block_hash blk.hash (or_empty (find height k.block_orphans)))
          k.block_orphans;
    block_heights = erase height k.block_heights;
  }
  b ← get (find blk.hash k.block_objects)
  let k = record k {
    block_objects = set blk.hash (record b { is_orphan = true }) k.block_objects;
    block_timestamps = erase_timestamp log.max_blk_timestamp height k.block_timestamps;
  }
  if ltb_ℤ (pos 0) height then set_next_block_hash blk.hash_prev_block 0 k else ok k

unfoldable pub reject_block : TxLog2 → CBlock → Parser → Result Parser
unfolding reject_block_kvdb
reject_block log blk p = do
  k ← reject_block_kvdb log blk p.kvdb
  ok (record p {
    kvdb = k;
    curr_block_height = log.blk_height;
    notify_log = p.notify_log ++ block_reject blk.hash log.blk_height ∷ [];
  })
