-- ===== src/Parser/Address.antt =====
-- What the key-value database holds of one address: the values of the keys that start with 20_, 21_,
-- 22_, 23_ and 24_ and the address. The values are the decoded FlatBuffers, and the object of key 20_ is
-- the cached AddressInfo, which flushAddressInfo writes back.
use explorer_kv.Prelude.{ℕ, Option, none, some, []}
use explorer_kv.Prelude.Int.{ℤ, pos}
use explorer_kv.Prelude.Result.{Result, ok, err, exception, unmodelled}
use explorer_kv.Transaction.{Hash, TxOutputKey}
use explorer_kv.OrdMap.{Map}

-- An index that starts at -1 is kept with one added, as the next index: `next_unspent_idx` is
-- unspentTxIndex_ + 1 and `next_confirmed_idx` is lastConfirmedTxIdx_ + 1. `lastUseIdx_` only ages the
-- cache.
pub record AddressInfo : Type 0 where
  pub tx_count : ℕ
  pub received : ℤ
  pub sent : ℤ
  pub unconfirmed_tx_count : ℤ
  pub unconfirmed_received : ℤ
  pub unconfirmed_sent : ℤ
  pub unspent_tx_count : ℤ
  pub next_unspent_idx : ℕ
  pub next_confirmed_idx : ℕ

-- fbe::AddressTx
pub record AddressTx : Type 0 where
  pub tx_hash : Hash
  pub tx_height : ℤ
  pub balance_diff : ℤ
  pub tx_block_time : ℕ

-- fbe::AddressUnspent
pub record AddressUnspent : Type 0 where
  pub tx_hash : Hash
  pub position : ℕ
  pub position2 : ℕ
  pub value : ℤ

pub record Address : Type 0 where
  pub info : AddressInfo
  -- 21_{address}_{010index}
  pub txs : Map ℕ AddressTx
  -- 22_{address}_{tx_hash}
  pub tx_idxs : Map Hash ℕ
  -- 23_{address}_{010index}
  pub unspents : Map ℕ AddressUnspent
  -- 24_{address}_{tx_hash}_{position}
  pub unspent_idxs : Map TxOutputKey ℕ

pub record AddressTxNode : Type 0 where
  pub tx_block_time : ℕ
  pub tx_height : ℤ
  pub balance_diff : ℤ
  pub idx : ℕ

unfoldable pub init : AddressInfo
init = record {
  tx_count = 0;
  received = pos 0;
  sent = pos 0;
  unconfirmed_tx_count = pos 0;
  unconfirmed_received = pos 0;
  unconfirmed_sent = pos 0;
  unspent_tx_count = pos 0;
  next_unspent_idx = 0;
  next_confirmed_idx = 0;
}

unfoldable pub new_address : Address
unfolding init
new_address = record { info = init; txs = []; tx_idxs = []; unspents = []; unspent_idxs = [] }

-- KVDB::get throws when the key is not found.
abbrev pub get {ℓ} : {V : Type ℓ} → Option V → Result V
get none = err exception
get (some v) = ok v

-- KVDB::multiGet leaves the value of a missing key empty, and reading it as a FlatBuffer is undefined.
abbrev pub multi_get {ℓ} : {V : Type ℓ} → Option V → Result V
multi_get none = err unmodelled
multi_get (some v) = ok v
