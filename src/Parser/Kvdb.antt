-- ===== src/Parser/Kvdb.antt =====
-- jiexi/src/KVDB.{h,cc} and the records that jiexi/src/Parser.cc keeps in it: one map for each prefix
-- of a key. RocksDB is taken as a map that stores what was put last. CTransaction and CBlock come
-- decoded; the destinations of an output are the text of the addresses that ExtractDestinations yields,
-- none where it fails.
use explorer_kv.Prelude.{ℕ, zero, suc, Bool, Option, none, some, List, [], ◌∷◌, if◌then◌else◌}
use explorer_kv.Prelude.Int.{ℤ}
use explorer_kv.Prelude.Result.{Result, ok, ◌>>=◌}
use explorer_kv.Transaction.{Hash, TxOutputKey, key_ord}
use explorer_kv.OrdMap.{Map, find, set}
use explorer_kv.OrdMap.Order.{nat_ord}
use explorer_kv.Parser.Address.{Address, new_address, multi_get}

-- the text of an address
abbrev pub Name : Type 0
Name = ℕ

pub record CTxOut : Type 0 where
  pub value : ℤ
  pub addresses : List Name

pub record CTransaction : Type 0 where
  pub hash : Hash
  -- the `prevout` of each input
  pub vin : List TxOutputKey
  pub vout : List CTxOut
  pub is_coinbase : Bool

-- fbe::TxInput, without its scripts and its sequence; `prev_position` is -1 for a coinbase
pub record TxInput : Type 0 where
  pub prev_tx_hash : Hash
  pub prev_position : ℤ
  pub prev_value : ℤ
  pub prev_addresses : List Name

-- fbe::Tx, without version, lock time, size and the time of creation; an fbe::TxOutput without its
-- scripts is a CTxOut
pub record TxObject : Type 0 where
  pub block_height : ℤ
  pub block_time : ℕ
  pub is_coinbase : Bool
  pub fee : ℤ
  pub inputs : List TxInput
  pub inputs_value : ℤ
  pub outputs : List CTxOut
  pub outputs_value : ℤ
  pub is_double_spend : Bool

-- fbe::TxSpentBy
pub record TxSpentBy : Type 0 where
  pub tx_hash : Hash
  pub position : ℕ

-- fbe::Block, without what is read from the header and not used again
pub record BlockObject : Type 0 where
  pub height : ℤ
  pub prev_block_hash : Hash
  pub next_block_hash : Hash
  pub reward_block : ℤ
  pub reward_fees : ℤ
  pub timestamp : ℕ
  pub tx_count : ℕ
  pub is_orphan : Bool
  pub curr_max_timestamp : ℕ

pub record Kvdb : Type 0 where
  -- 01_{tx_hash}
  pub tx_objects : Map Hash TxObject
  -- 02_{tx_hash}_{position}
  pub tx_spends : Map TxOutputKey TxSpentBy
  -- 03_{tx_hash}: the fee
  pub unconfirmed_txs : Map Hash ℤ
  -- 10_{height}
  pub block_heights : Map ℤ Hash
  -- 11_{block_hash}
  pub block_objects : Map Hash BlockObject
  -- 12_{block_hash}_{batch}
  pub block_txs : Map Hash (Map ℕ (List Hash))
  -- 13_{height}
  pub block_orphans : Map ℤ (List Hash)
  -- 14_{timestamp}_{height}
  pub block_timestamps : Map ℕ (Map ℤ Hash)
  -- 20_ to 24_, by their address
  pub addresses : Map Name Address
  -- 90_tparser_txlogs_offset_id, 90_tparser_unconfirmed_txs_count and _size
  pub txlogs_offset_id : Option ℕ
  pub unconfirmed_txs_count : ℤ
  pub unconfirmed_txs_size : ℤ

-- _getAddressInfo makes a new AddressInfo when the address is not known.
abbrev pub or_new : Option Address → Address
or_new none = new_address
or_new (some a) = a

unfoldable pub address_at : Name → Kvdb → Address
address_at name k = or_new (find name k.addresses)

unfoldable pub update_address : (Address → Result Address) → Name → Kvdb → Result Kvdb
unfolding address_at
update_address f name k = do
  a ← f (address_at name k)
  ok (record k { addresses = set name a k.addresses })

-- for (auto &it : …)
unfoldable pub for_each {ℓ} : {A : Type ℓ} → (A → Kvdb → Result Kvdb) → List A → Kvdb → Result Kvdb
for_each f [] k = ok k
for_each f (x ∷ xs) k = f x k >>= for_each f xs

-- operator[] of a vector, whose use past the end is undefined
abbrev pub output_at : ℕ → List CTxOut → Option CTxOut
output_at n [] = none
output_at zero (out ∷ outs) = some out
output_at (suc n) (out ∷ outs) = output_at n outs

unfoldable pub prev_tx_output : Kvdb → TxOutputKey → Result CTxOut
prev_tx_output k out = do
  t ← multi_get (find out.hash k.tx_objects)
  multi_get (output_at out.position t.outputs)

-- The transactions are read together, which a lookup for each input reads alike.
unfoldable pub prev_outputs : Kvdb → List TxOutputKey → Result (List CTxOut)
unfolding prev_tx_output
prev_outputs k [] = ok []
prev_outputs k (i ∷ vin) = do out ← prev_tx_output k i; outs ← prev_outputs k vin; ok (out ∷ outs)

unfoldable pub get_prev_tx_outputs : Kvdb → CTransaction → Result (List CTxOut)
unfolding prev_outputs
get_prev_tx_outputs k tx = if tx.is_coinbase then ok [] else prev_outputs k tx.vin
