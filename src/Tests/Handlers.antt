-- ===== src/Tests/Handlers.antt =====
-- The handlers of tparser: a coinbase pays the address 1, which pays the address 2.
use explorer_kv.Prelude.{Bool, true, false, none, some, [], ◌∷◌, ◌≡◌, refl, ◌==◌, if◌then◌else◌}
use explorer_kv.Prelude.Int.{ℤ, pos, negsuc, ◌+ℤ◌, ◌-ℤ◌}
use explorer_kv.Prelude.Result.{Result, ok}
use explorer_kv.Transaction.{Hash, key_ord}
use explorer_kv.TxLogs2.{Ledger, Status, LogType, after}
use explorer_kv.OrdMap.{find, has, set, erase}
use explorer_kv.OrdMap.Order.{nat_ord}
use explorer_kv.Parser.Address.{new_address, init}
use explorer_kv.Parser.AddressTxs.{
  insert_address_tx, confirm_address_tx, move_to_confirm, confirm_address_tx_node,
  get_address_tx_node, switch_tx_node, move_to_end, remove_address_tx_node, reject_address_tx,
}
use explorer_kv.Parser.AddressTxs.Run.{IsTop}
use explorer_kv.Parser.Unspents.{
  insert_address_unspent, delete_address_unspent, remove_unspent_output,
}
use explorer_kv.Parser.Kvdb.{
  Name, CTransaction, TxObject, Kvdb, address_at, update_address, for_each, prev_tx_output,
  prev_outputs, get_prev_tx_outputs,
}
use explorer_kv.Parser.Balance.{
  add_balance, add_balances, take_outputs, give_outputs, address_balance, get_tx_address_balance,
  get_value_out, value_out_from, money_range, sum_values,
}
use explorer_kv.Parser.Txs.{
  TxLog2, Parser, add_unconfirmed_tx_pool, write_notification_logs, insert_spend_txs,
  insert_unspents, insert_outputs, remove_unspent_outputs, spend_step, insert_address_txs,
  tx_object, accept_tx_kvdb, accept_tx, confirmed_fee, confirm_object, confirm_tx_kvdb, confirm_tx,
  unconfirm_tx, restore_step, delete_outputs, reject_tx_kvdb, reject_tx, remove_unconfirmed_tx_pool,
}
use explorer_kv.Parser.Txs.World.{World, Stacks, moved, empty-World}
use explorer_kv.Parser.Txs.Amounts.{IsMoney}
use explorer_kv.Parser.Txs.Confirm.{below, confirm_tx-World, unconfirm_tx-World}
use explorer_kv.Parser.Txs.Accept.{accept_tx-World, reject_tx-World}
use explorer_kv.Parser.Blocks.{
  CBlock, accept_block, accept_block_kvdb, insert_block, insert_block_txs, insert_batches,
  last_batch, accept_orphan, or_empty,
}
use explorer_kv.Parser.Blocks.Batches.{batch_count, read_batches, insert_block_txs-read}
use explorer_kv.Parser.Handle.{handle_as, handle_txlog}
use explorer_kv.Parser.Handle.World.{handle_txlog-World}
use explorer_kv.Tests.Data.{returned}
use explorer_kv.Tests.Addresses.{spelled, spelled-own}

abbrev coinbase : CTransaction
coinbase = record {
  hash = 10;
  vin = record { hash = 0; position = 0 } ∷ [];
  vout = record { value = pos 50; addresses = 1 ∷ [] } ∷ [];
  is_coinbase = true;
}

abbrev payment : CTransaction
payment = record {
  hash = 20;
  vin = record { hash = 10; position = 0 } ∷ [];
  vout =
      record { value = pos 30; addresses = 2 ∷ [] }
      ∷ record { value = pos 19; addresses = 1 ∷ [] }
      ∷ [];
  is_coinbase = false;
}

abbrev log_of : LogType → ℤ → CTransaction → TxLog2
log_of type height tx = record {
  id = 1;
  type = type;
  blk_height = height;
  max_blk_timestamp = 1000;
  tx_hash = tx.hash;
  tx = tx;
  tx_size = 200;
}

-- what the two transactions move
abbrev touches : Name → Hash → Bool
touches name h =
    if h == 10
    then has name (address_balance [] coinbase)
    else if h == 20
    then has name (address_balance coinbase.vout payment)
    else false

abbrev start : Parser
start = record {
  kvdb = record {
    tx_objects = [];
    tx_spends = [];
    unconfirmed_txs = [];
    block_heights = [];
    block_objects = [];
    block_txs = [];
    block_orphans = [];
    block_timestamps = [];
    addresses = [];
    txlogs_offset_id = none;
    unconfirmed_txs_count = pos 0;
    unconfirmed_txs_size = pos 0;
  };
  unconfirmed_txs_count = pos 0;
  unconfirmed_txs_size = pos 0;
  curr_block_height = negsuc 0;
  notify_begin_height = negsuc 0;
  notify_log = [];
}

abbrev nothing : Ledger
nothing h = Status.absent

abbrev no_stacks : Stacks
no_stacks name = []

start-World : World touches no_stacks nothing start.kvdb
start-World = empty-World touches start.kvdb refl refl

abbrev with_coinbase : Parser
with_coinbase = returned start (accept_tx (log_of LogType.accept (negsuc 0) coinbase) start)

coinbase_runs : accept_tx (log_of LogType.accept (negsuc 0) coinbase) start ≡ ok with_coinbase
unfolding accept_tx get_prev_tx_outputs accept_tx_kvdb insert_outputs insert_unspents update_address
    address_at new_address init insert_address_unspent find set tx_object get_value_out
    value_out_from money_range sum_values ◌+ℤ◌ spend_step insert_address_txs for_each
    insert_address_tx address_balance take_outputs give_outputs add_balances add_balance
coinbase_runs = refl

reads_nothing : (k : Kvdb) → get_prev_tx_outputs k coinbase ≡ ok []
unfolding get_prev_tx_outputs
reads_nothing k = refl

balance_of_coinbase :
    (k : Kvdb) → get_tx_address_balance k coinbase ≡ ok (address_balance [] coinbase)
unfolding get_tx_address_balance get_prev_tx_outputs
balance_of_coinbase k = refl

abbrev s1 : Ledger
s1 = after nothing LogType.accept 10

abbrev stacks1 : Stacks
stacks1 = moved touches (λ stack. stack) 10 no_stacks

with_coinbase-World : World touches stacks1 s1 with_coinbase.kvdb
with_coinbase-World =
    accept_tx-World touches spelled spelled-own no_stacks nothing start with_coinbase
      (log_of LogType.accept (negsuc 0) coinbase) start-World [] (reads_nothing start.kvdb)
      (λ name. refl) refl coinbase_runs

-- the payment spends what the database holds
abbrev with_payment : Parser
with_payment = returned start (accept_tx (log_of LogType.accept (negsuc 0) payment) with_coinbase)

payment_reads : get_prev_tx_outputs with_coinbase.kvdb payment ≡ ok coinbase.vout
unfolding accept_tx get_prev_tx_outputs accept_tx_kvdb insert_outputs insert_unspents update_address
    address_at new_address init insert_address_unspent find set tx_object get_value_out
    value_out_from money_range sum_values ◌+ℤ◌ spend_step insert_address_txs for_each
    insert_address_tx address_balance take_outputs give_outputs add_balances add_balance
    prev_outputs prev_tx_output write_notification_logs add_unconfirmed_tx_pool
payment_reads = refl

payment_runs : accept_tx (log_of LogType.accept (negsuc 0) payment) with_coinbase ≡ ok with_payment
unfolding accept_tx get_prev_tx_outputs accept_tx_kvdb insert_outputs insert_unspents update_address
    address_at new_address init insert_address_unspent find set erase tx_object get_value_out
    value_out_from money_range sum_values ◌+ℤ◌ spend_step insert_address_txs for_each
    insert_address_tx address_balance take_outputs give_outputs add_balances add_balance
    prev_outputs prev_tx_output write_notification_logs add_unconfirmed_tx_pool
    remove_unspent_outputs remove_unspent_output delete_address_unspent insert_spend_txs
payment_runs = refl

abbrev block_value : ℤ → ℤ
block_value height = pos 50

coinbase-IsMoney : IsMoney coinbase.vout
unfolding money_range sum_values ◌+ℤ◌
coinbase-IsMoney = record { each = (refl, tt); whole = refl }

confirm_tx-World_example :
    (p' : Parser) × (confirm_tx block_value (log_of LogType.confirm (pos 0) coinbase) with_coinbase
      ≡ ok p')
    × World touches
        (moved touches (λ stack. 10 ∷ stack) 10 stacks1)
        (after s1 LogType.confirm 10)
        p'.kvdb
    × ((t : TxObject) × (find 10 with_coinbase.kvdb.tx_objects ≡ some t)
        × (find 10 p'.kvdb.tx_objects
            ≡ some (
                confirm_object block_value
                  (log_of LogType.confirm (pos 0) coinbase)
                  (sum_values coinbase.vout -ℤ pos 50)
                  t)))
confirm_tx-World_example =
    confirm_tx-World touches spelled spelled-own block_value stacks1 s1 with_coinbase
      (log_of LogType.confirm (pos 0) coinbase) with_coinbase-World (address_balance [] coinbase)
      (balance_of_coinbase with_coinbase.kvdb) (λ name. refl) refl refl coinbase-IsMoney

-- the coinbase in a block
mined :
    (p' : Parser) × (confirm_tx block_value (log_of LogType.confirm (pos 0) coinbase) with_coinbase
      ≡ ok p')
    × World touches
        (moved touches (λ stack. 10 ∷ stack) 10 stacks1)
        (after s1 LogType.confirm 10)
        p'.kvdb
    × ((t : TxObject) × (find 10 with_coinbase.kvdb.tx_objects ≡ some t)
        × (find 10 p'.kvdb.tx_objects
            ≡ some (
                confirm_object block_value
                  (log_of LogType.confirm (pos 0) coinbase)
                  (sum_values coinbase.vout -ℤ pos 50)
                  t)))
mined =
    confirm_tx-World touches spelled spelled-own block_value stacks1 s1 with_coinbase
      (log_of LogType.confirm (pos 0) coinbase) with_coinbase-World (address_balance [] coinbase)
      (balance_of_coinbase with_coinbase.kvdb) (λ name. refl) refl refl coinbase-IsMoney

abbrev s2 : Ledger
s2 = after s1 LogType.confirm 10

abbrev stacks2 : Stacks
stacks2 = moved touches (λ stack. 10 ∷ stack) 10 stacks1

coinbase_IsTop : (name : Name) → touches name 10 ≡ true → IsTop 10 (stacks2 name)
coinbase_IsTop name there = rw (there) refl

unconfirm_tx-World_example :
    (p' : Parser) × (unconfirm_tx (log_of LogType.unconfirm (pos 0) coinbase) mined.0 ≡ ok p')
    × World touches (moved touches below 10 stacks2) (after s2 LogType.unconfirm 10) p'.kvdb
unconfirm_tx-World_example =
    unconfirm_tx-World touches spelled spelled-own block_value stacks2 s2 mined.0
      (log_of LogType.unconfirm (pos 0) coinbase) mined.2 (address_balance [] coinbase)
      (balance_of_coinbase mined.0.kvdb) (λ name. refl) refl coinbase_IsTop

with_payment-World :
    World touches
      (moved touches (λ stack. stack) 20 stacks1)
      (after s1 LogType.accept 20)
      with_payment.kvdb
with_payment-World =
    accept_tx-World touches spelled spelled-own stacks1 s1 with_coinbase with_payment
      (log_of LogType.accept (negsuc 0) payment) with_coinbase-World coinbase.vout payment_reads
      (λ name. refl) refl payment_runs

abbrev taken_back : Parser
taken_back =
    returned start (reject_tx spelled (log_of LogType.reject (negsuc 0) payment) with_payment)

reject_reads : get_prev_tx_outputs with_payment.kvdb payment ≡ ok coinbase.vout
unfolding accept_tx get_prev_tx_outputs accept_tx_kvdb insert_outputs insert_unspents update_address
    address_at new_address init insert_address_unspent find set erase tx_object get_value_out
    value_out_from money_range sum_values ◌+ℤ◌ spend_step insert_address_txs for_each
    insert_address_tx address_balance take_outputs give_outputs add_balances add_balance
    prev_outputs prev_tx_output write_notification_logs add_unconfirmed_tx_pool
    remove_unspent_outputs remove_unspent_output delete_address_unspent insert_spend_txs
reject_reads = refl

reject_runs :
    reject_tx spelled (log_of LogType.reject (negsuc 0) payment) with_payment ≡ ok taken_back
unfolding accept_tx get_prev_tx_outputs accept_tx_kvdb insert_outputs insert_unspents update_address
    address_at new_address init insert_address_unspent find set erase tx_object get_value_out
    value_out_from money_range sum_values ◌+ℤ◌ spend_step insert_address_txs for_each
    insert_address_tx address_balance take_outputs give_outputs add_balances add_balance
    prev_outputs prev_tx_output write_notification_logs add_unconfirmed_tx_pool
    remove_unspent_outputs remove_unspent_output delete_address_unspent insert_spend_txs reject_tx
    reject_tx_kvdb restore_step delete_outputs reject_address_tx move_to_end get_address_tx_node
    switch_tx_node remove_address_tx_node remove_unconfirmed_tx_pool
reject_runs = refl

taken_back-World :
    World touches
      (moved touches (λ stack. stack) 20 (moved touches (λ stack. stack) 20 stacks1))
      (after (after s1 LogType.accept 20) LogType.reject 20)
      taken_back.kvdb
taken_back-World =
    reject_tx-World touches spelled spelled-own (moved touches (λ stack. stack) 20 stacks1)
      (after s1 LogType.accept 20) with_payment taken_back
      (log_of LogType.reject (negsuc 0) payment) with_payment-World coinbase.vout reject_reads
      (λ name. refl) refl reject_runs

-- the block that has the coinbase
abbrev genesis : TxLog2 → Result CBlock
genesis log = ok (record { hash = 7; hash_prev_block = 0; time = 900; vtx = coinbase ∷ [] })

abbrev in_block : Parser
in_block = returned start (
    handle_txlog spelled block_value genesis (log_of LogType.confirm (pos 0) coinbase)
      with_coinbase)

in_block_runs :
    handle_txlog spelled block_value genesis (log_of LogType.confirm (pos 0) coinbase) with_coinbase
    ≡ ok in_block
unfolding accept_tx get_prev_tx_outputs accept_tx_kvdb insert_outputs insert_unspents update_address
    address_at new_address init insert_address_unspent find set erase tx_object get_value_out
    value_out_from money_range sum_values ◌+ℤ◌ spend_step insert_address_txs for_each
    insert_address_tx address_balance take_outputs give_outputs add_balances add_balance
    write_notification_logs add_unconfirmed_tx_pool handle_txlog handle_as accept_block
    accept_block_kvdb insert_block insert_block_txs insert_batches last_batch accept_orphan
    confirm_tx confirm_tx_kvdb get_tx_address_balance confirm_address_tx move_to_confirm
    get_address_tx_node confirmed_fee confirm_address_tx_node ◌-ℤ◌
in_block_runs = refl

handle_txlog-World_example :
    World touches
      (moved touches (λ stack. 10 ∷ stack) 10 stacks1)
      (after s1 LogType.confirm 10)
      in_block.kvdb
handle_txlog-World_example =
    handle_txlog-World touches spelled spelled-own block_value genesis stacks1 s1
      (log_of LogType.confirm (pos 0) coinbase) (address_balance [] coinbase) (λ name. refl)
      with_coinbase in_block with_coinbase-World (balance_of_coinbase with_coinbase.kvdb) refl refl
      in_block_runs

-- two transactions in one batch
abbrev two_txs : CBlock
two_txs = record { hash = 8; hash_prev_block = 7; time = 901; vtx = coinbase ∷ payment ∷ [] }

insert_block_txs-read_example :
    read_batches (batch_count 2) (or_empty (find 8 (insert_block_txs two_txs start.kvdb).block_txs))
    ≡ 10 ∷ 20 ∷ []
insert_block_txs-read_example = insert_block_txs-read two_txs start.kvdb
