-- ===== src/Parser/Txs.antt =====
-- jiexi/src/Parser.cc: the four handlers of a row of 0_txlogs2 on the transaction, its outputs and its
-- addresses. flushAddressInfo is the identity: the cached AddressInfo of an address is the stored one.
pub mod Addresses
pub mod Amounts
pub mod World
pub mod Outputs
pub mod Confirm
pub mod Accept
use explorer_kv.Prelude.{
  ℕ, suc, Bool, true, false, Option, none, some, List, [], ◌∷◌, ◌++◌, if◌then◌else◌, not, ◌||◌,
}
use explorer_kv.Prelude.Int.{ℤ, pos, negsuc, ◌+ℤ◌, ◌-ℤ◌, beq_ℤ, ltb_ℤ}
use explorer_kv.Prelude.Result.{Result, ok, err, assertion, ◌>>=◌, ◌>>◌, guard}
use explorer_kv.Transaction.{Hash, TxOutputKey, key_ord}
use explorer_kv.TxLogs2.{LogType}
use explorer_kv.OrdMap.{Map, find, set, erase}
use explorer_kv.OrdMap.Order.{nat_ord}
use explorer_kv.Parser.Address.{Address, get}
use explorer_kv.Parser.AddressTxs.{
  insert_address_tx, confirm_address_tx, unconfirm_address_tx, reject_address_tx,
}
use explorer_kv.Parser.Unspents.{
  insert_address_unspent, delete_address_unspent, remove_unspent_output,
}
use explorer_kv.Parser.Kvdb.{
  Name, CTxOut, CTransaction, TxInput, TxObject, TxSpentBy, Kvdb, update_address, for_each,
  get_prev_tx_outputs,
}
use explorer_kv.Parser.Balance.{address_balance, get_tx_address_balance, sum_values, get_value_out}

-- class TxLog2, without the fields that no handler reads
pub record TxLog2 : Type 0 where
  pub id : ℕ
  pub type : LogType
  pub blk_height : ℤ
  pub max_blk_timestamp : ℕ
  pub tx_hash : Hash
  pub tx : CTransaction
  -- txHex_.length() / 2
  pub tx_size : ℕ

-- a NotifyItem, without the time at which it is made
pub data NotifyItem : Type 0 where
  tx_item : LogType → Name → Hash → ℤ → ℤ → NotifyItem
  block_accept : Hash → ℤ → NotifyItem
  block_reject : Hash → ℤ → NotifyItem

-- `notify_log` is what notifyProducer_ wrote, which stands from `init` on.
pub record Parser : Type 0 where
  pub kvdb : Kvdb
  pub unconfirmed_txs_count : ℤ
  pub unconfirmed_txs_size : ℤ
  pub curr_block_height : ℤ
  pub notify_begin_height : ℤ
  pub notify_log : List NotifyItem

unfoldable pub add_unconfirmed_tx_pool : TxLog2 → Parser → Parser
add_unconfirmed_tx_pool log p =
    let count = p.unconfirmed_txs_count +ℤ pos 1 in
    let size = p.unconfirmed_txs_size +ℤ pos log.tx_size in
    record p {
      unconfirmed_txs_count = count;
      unconfirmed_txs_size = size;
      kvdb = record p.kvdb { unconfirmed_txs_count = count; unconfirmed_txs_size = size };
    }

unfoldable pub remove_unconfirmed_tx_pool : TxLog2 → Parser → Parser
remove_unconfirmed_tx_pool log p =
    let count = p.unconfirmed_txs_count -ℤ pos 1 in
    let size = p.unconfirmed_txs_size -ℤ pos log.tx_size in
    record p {
      unconfirmed_txs_count = count;
      unconfirmed_txs_size = size;
      kvdb = record p.kvdb { unconfirmed_txs_count = count; unconfirmed_txs_size = size };
    }

unfoldable pub is_write_notification_logs : Parser → Bool
is_write_notification_logs p =
    beq_ℤ p.curr_block_height (negsuc 0)
    || beq_ℤ p.notify_begin_height (negsuc 0)
    || not (ltb_ℤ p.curr_block_height p.notify_begin_height)

unfoldable pub tx_items : TxLog2 → Map Name ℤ → List NotifyItem
tx_items log [] = []
tx_items log ((name, diff) ∷ m) =
    tx_item log.type name log.tx_hash log.blk_height diff ∷ tx_items log m

unfoldable pub write_notification_logs : Map Name ℤ → TxLog2 → Parser → Parser
unfolding is_write_notification_logs tx_items
write_notification_logs balance log p =
    if is_write_notification_logs p
    then record p { notify_log = p.notify_log ++ tx_items log balance }
    else p

unfoldable pub insert_spend_txs : Hash → ℕ → List TxOutputKey → Kvdb → Kvdb
insert_spend_txs h n [] k = k
insert_spend_txs h n (i ∷ vin) k =
    insert_spend_txs h (suc n) vin
      (record k { tx_spends = set i (record { tx_hash = h; position = n }) k.tx_spends })

-- the loop over the addresses of one output, with their places
unfoldable pub insert_unspents : ℤ → TxOutputKey → ℕ → List Name → Kvdb → Result Kvdb
insert_unspents value out j [] k = ok k
insert_unspents value out j (name ∷ names) k =
    update_address (λ a. ok (insert_address_unspent value out j a)) name k
    >>= insert_unspents value out (suc j) names

-- the loop over the outputs of the transaction `h`
unfoldable pub insert_outputs : Hash → ℕ → List CTxOut → Kvdb → Result Kvdb
unfolding insert_unspents
insert_outputs h n [] k = ok k
insert_outputs h n (out ∷ outs) k =
    insert_unspents out.value (record { hash = h; position = n }) 0 out.addresses k
    >>= insert_outputs h (suc n) outs

-- the inputs together with the outputs that they spend
abbrev pub zip : List TxOutputKey → List CTxOut → List (TxOutputKey × CTxOut)
zip (i ∷ vin) (out ∷ outs) = (i, out) ∷ zip vin outs
zip _ _ = []

abbrev pub remove_input : TxOutputKey × CTxOut → Kvdb → Result Kvdb
remove_input (i, out) = for_each (update_address (remove_unspent_output i)) out.addresses

unfoldable pub remove_unspent_outputs : List TxOutputKey → List CTxOut → Kvdb → Result Kvdb
remove_unspent_outputs vin prev = for_each remove_input (zip vin prev)

unfoldable pub insert_address_txs : TxLog2 → Map Name ℤ → Kvdb → Result Kvdb
insert_address_txs log =
    for_each
      λ e. update_address (λ a. ok (insert_address_tx log.tx_hash log.max_blk_timestamp e.1 a)) e.0

abbrev inputs_of : List (TxOutputKey × CTxOut) → List TxInput
inputs_of [] = []
inputs_of ((i, out) ∷ rest) =
    record {
      prev_tx_hash = i.hash;
      prev_position = pos i.position;
      prev_value = out.value;
      prev_addresses = out.addresses;
    }
    ∷ inputs_of rest

-- the inputs of a coinbase have no output before them
abbrev coinbase_inputs : List TxOutputKey → List TxInput
coinbase_inputs [] = []
coinbase_inputs (i ∷ vin) =
    record { prev_tx_hash = 0; prev_position = negsuc 0; prev_value = pos 0; prev_addresses = [] }
    ∷ coinbase_inputs vin

unfoldable pub tx_object : CTransaction → List CTxOut → ℤ → TxObject
unfolding sum_values
tx_object tx prev value_out = record {
  block_height = negsuc 0;
  block_time = 0;
  is_coinbase = tx.is_coinbase;
  fee = if tx.is_coinbase then value_out else sum_values prev -ℤ value_out;
  inputs = if tx.is_coinbase then coinbase_inputs tx.vin else inputs_of (zip tx.vin prev);
  inputs_value = sum_values prev;
  outputs = tx.vout;
  outputs_value = value_out;
  is_double_spend = false;
}

-- what `acceptTx` does for the inputs, which a coinbase passes over
unfoldable pub spend_step : TxLog2 → List CTxOut → Kvdb → Result Kvdb
unfolding remove_unspent_outputs insert_spend_txs
spend_step log prev k =
    if log.tx.is_coinbase
    then ok k
    else (remove_unspent_outputs log.tx.vin prev k >>= λ k.
        ok (insert_spend_txs log.tx_hash 0 log.tx.vin k))

-- `acceptTx` from the outputs to the unconfirmed transaction. Two blocks of early days hold a
-- transaction that stood in a block before; the test on their heights comes after the assertion that
-- there is no height, and never holds.
unfoldable pub accept_tx_kvdb : TxLog2 → List CTxOut → Kvdb → Result Kvdb
unfolding insert_outputs tx_object spend_step insert_address_txs
accept_tx_kvdb log prev k = do
  let tx = log.tx
  k ← insert_outputs log.tx_hash 0 tx.vout k
  value_out ← get_value_out tx.vout
  let object = tx_object tx prev value_out
  let k = record k { tx_objects = set log.tx_hash object k.tx_objects }
  k ← spend_step log prev k
  k ← insert_address_txs log (address_balance prev tx) k
  ok (record k { unconfirmed_txs = set log.tx_hash object.fee k.unconfirmed_txs })

unfoldable pub accept_tx : TxLog2 → Parser → Result Parser
unfolding accept_tx_kvdb add_unconfirmed_tx_pool write_notification_logs
accept_tx log p = do
  guard (beq_ℤ log.blk_height (negsuc 0)) assertion
  prev ← get_prev_tx_outputs p.kvdb log.tx
  k ← accept_tx_kvdb log prev p.kvdb
  ok (
      write_notification_logs (address_balance prev log.tx) log
        (add_unconfirmed_tx_pool log (record p { kvdb = k })))

-- GetBlockValue(height, 0) of the Bitcoin sources
module _ (get_block_value : ℤ → ℤ) where
  -- the fee of a coinbase is known with its height
  unfoldable pub confirmed_fee : TxLog2 → TxObject → Result ℤ
  unfolding get_value_out
  confirmed_fee log t =
      if log.tx.is_coinbase
      then (get_value_out log.tx.vout >>= λ value. ok (value -ℤ get_block_value log.blk_height))
      else ok t.fee

  unfoldable pub confirm_object : TxLog2 → ℤ → TxObject → TxObject
  confirm_object log fee t = record t {
    fee = fee;
    block_height = log.blk_height;
    block_time = log.max_blk_timestamp;
  }

  unfoldable pub confirm_tx_kvdb : TxLog2 → Map Name ℤ → Kvdb → Result Kvdb
  unfolding confirmed_fee confirm_object
  confirm_tx_kvdb log balance k = do
    k ←
        for_each
          (λ e.
            update_address (confirm_address_tx log.tx_hash log.max_blk_timestamp log.blk_height)
              e.0)
          balance k
    t ← get (find log.tx_hash k.tx_objects)
    fee ← confirmed_fee log t
    ok (record k {
      tx_objects = set log.tx_hash (confirm_object log fee t) k.tx_objects;
      unconfirmed_txs = erase log.tx_hash k.unconfirmed_txs;
    })

  unfoldable pub confirm_tx : TxLog2 → Parser → Result Parser
  unfolding confirm_tx_kvdb remove_unconfirmed_tx_pool write_notification_logs
  confirm_tx log p = do
    balance ← get_tx_address_balance p.kvdb log.tx
    k ← confirm_tx_kvdb log balance p.kvdb
    ok (
        write_notification_logs balance log
          (remove_unconfirmed_tx_pool log (record p { kvdb = k })))

unfoldable pub unconfirm_tx_kvdb : TxLog2 → Map Name ℤ → Kvdb → Result Kvdb
unconfirm_tx_kvdb log balance k = do
  k ← for_each (λ e. update_address (unconfirm_address_tx log.tx_hash) e.0) balance k
  t ← get (find log.tx_hash k.tx_objects)
  ok (record k {
    tx_objects =
        set log.tx_hash (record t { block_time = 0; block_height = negsuc 0 }) k.tx_objects;
    unconfirmed_txs = set log.tx_hash t.fee k.unconfirmed_txs;
  })

unfoldable pub unconfirm_tx : TxLog2 → Parser → Result Parser
unfolding unconfirm_tx_kvdb add_unconfirmed_tx_pool write_notification_logs
unconfirm_tx log p = do
  balance ← get_tx_address_balance p.kvdb log.tx
  k ← unconfirm_tx_kvdb log balance p.kvdb
  ok (write_notification_logs balance log (add_unconfirmed_tx_pool log (record p { kvdb = k })))

-- the loop over the inputs of `rejectTx`
abbrev pub restore_input : TxOutputKey × CTxOut → Kvdb → Result Kvdb
restore_input (i, out) k =
    insert_unspents out.value i 0 out.addresses (record k { tx_spends = erase i k.tx_spends })

unfoldable pub restore_step : TxLog2 → List CTxOut → Kvdb → Result Kvdb
restore_step log prev k =
    if log.tx.is_coinbase then ok k else for_each restore_input (zip log.tx.vin prev) k

-- its loop over the outputs
unfoldable pub delete_outputs : Hash → ℕ → List CTxOut → Kvdb → Result Kvdb
delete_outputs h n [] k = ok k
delete_outputs h n (out ∷ outs) k =
    for_each (update_address (delete_address_unspent (record { hash = h; position = n })))
      out.addresses k
    >>= delete_outputs h (suc n) outs

-- the text of _removeAddressTxNode's key
module _ (printed : Hash → Option Hash) where
  unfoldable pub reject_tx_kvdb : TxLog2 → List CTxOut → Kvdb → Result Kvdb
  unfolding restore_step delete_outputs
  reject_tx_kvdb log prev k = do
    let tx = log.tx
    k ← restore_step log prev k
    k ← delete_outputs log.tx_hash 0 tx.vout k
    t ← get (find log.tx_hash k.tx_objects)
    let k = record k {
      tx_objects = set log.tx_hash (record t { is_double_spend = true }) k.tx_objects;
      unconfirmed_txs = erase log.tx_hash k.unconfirmed_txs;
    }
    for_each (λ e. update_address (reject_address_tx printed log.tx_hash) e.0)
        (address_balance prev tx) k

  unfoldable pub reject_tx : TxLog2 → Parser → Result Parser
  unfolding reject_tx_kvdb remove_unconfirmed_tx_pool write_notification_logs
  reject_tx log p = do
    prev ← get_prev_tx_outputs p.kvdb log.tx
    k ← reject_tx_kvdb log prev p.kvdb
    ok (
        write_notification_logs (address_balance prev log.tx) log
          (remove_unconfirmed_tx_pool log (record p { kvdb = k })))
