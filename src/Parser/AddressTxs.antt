-- ===== src/Parser/AddressTxs.antt =====
-- jiexi/src/Parser.cc: the chain of the transactions of one address, in the order of their indexes.
-- The confirmed ones come first. Each function is the body of a loop over the addresses of a
-- transaction.
pub mod Totals
pub mod Listed
pub mod Invariant
pub mod Accept
pub mod Confirm
pub mod Unconfirm
pub mod Reject
pub mod RoundTrip
pub mod Ledger
pub mod Leftover
pub mod Steps
pub mod StepsBack
pub mod Run
use explorer_kv.Prelude.{
  ℕ, zero, suc, ◌-◌, ◌+◌, Bool, true, false, Option, none, some, if◌then◌else◌, ltb, leb, ◌==◌,
}
use explorer_kv.Prelude.Int.{ℤ, pos, negsuc, ◌+ℤ◌, ◌-ℤ◌}
use explorer_kv.Prelude.Result.{Result, ok, err, assertion, out_of_fuel, ◌>>=◌, ◌>>◌, guard}
use explorer_kv.Transaction.{Hash}
use explorer_kv.OrdMap.{Map, find, set, erase}
use explorer_kv.OrdMap.Order.{nat_ord}
use explorer_kv.Parser.Address.{AddressInfo, AddressTx, Address, AddressTxNode, get, multi_get}

-- (d > 0 ? d : 0) and (d < 0 ? d * -1 : 0)
abbrev pub received_of : ℤ → ℤ
received_of (pos n) = pos n
received_of (negsuc n) = pos 0

abbrev pub sent_of : ℤ → ℤ
sent_of (pos n) = pos 0
sent_of (negsuc n) = pos (suc n)

abbrev pub new_node : Hash → ℕ → ℤ → AddressTx
new_node h time diff = record {
  tx_hash = h;
  tx_height = negsuc 0;
  balance_diff = diff;
  tx_block_time = time;
}

unfoldable pub insert_address_tx : Hash → ℕ → ℤ → Address → Address
insert_address_tx h time diff a = record a {
  txs = set a.info.tx_count (new_node h time diff) a.txs;
  tx_idxs = set h a.info.tx_count a.tx_idxs;
  info = record a.info {
    received = a.info.received +ℤ received_of diff;
    sent = a.info.sent +ℤ sent_of diff;
    unconfirmed_received = a.info.unconfirmed_received +ℤ received_of diff;
    unconfirmed_sent = a.info.unconfirmed_sent +ℤ sent_of diff;
    unconfirmed_tx_count = a.info.unconfirmed_tx_count +ℤ pos 1;
    tx_count = suc a.info.tx_count;
  };
}

unfoldable pub get_address_tx_node : Hash → Address → Result AddressTxNode
get_address_tx_node h a = do
  idx ← get (find h a.tx_idxs)
  t ← get (find idx a.txs)
  ok (record {
    tx_block_time = t.tx_block_time;
    tx_height = t.tx_height;
    balance_diff = t.balance_diff;
    idx = idx;
  })

unfoldable pub switch_tx_node : ℕ → ℕ → Address → Result Address
switch_tx_node idx1 idx2 a = do
  t1 ← multi_get (find idx1 a.txs)
  t2 ← multi_get (find idx2 a.txs)
  ok (record a {
    txs = set idx2 t1 (set idx1 t2 a.txs);
    tx_idxs = set t2.tx_hash idx1 (set t1.tx_hash idx2 a.tx_idxs);
  })

-- the loop of `confirmTx` that brings the node behind the last confirmed one
unfoldable pub move_to_confirm : ℕ → Hash → Address → Result (AddressTxNode × Address)
unfolding get_address_tx_node switch_tx_node
move_to_confirm zero h a = err out_of_fuel
move_to_confirm (suc fuel) h a = do
  node ← get_address_tx_node h a
  elim (a.info.next_confirmed_idx == node.idx) [
    | true ↦ ok (node, a)
    | false ↦ switch_tx_node a.info.next_confirmed_idx node.idx a >>= move_to_confirm fuel h
  ]

unfoldable pub confirm_address_tx_node : AddressTxNode → Address → Result Address
confirm_address_tx_node node a = do
  t ← get (find node.idx a.txs)
  ok (record a {
    info = record a.info {
      unconfirmed_received = a.info.unconfirmed_received -ℤ received_of node.balance_diff;
      unconfirmed_sent = a.info.unconfirmed_sent -ℤ sent_of node.balance_diff;
      unconfirmed_tx_count = a.info.unconfirmed_tx_count -ℤ pos 1;
      next_confirmed_idx = suc node.idx;
    };
    txs =
        set node.idx (record t { tx_block_time = node.tx_block_time; tx_height = node.tx_height })
          a.txs;
  })

-- The loop ends in the second round at the latest.
unfoldable pub confirm_address_tx : Hash → ℕ → ℤ → Address → Result Address
unfolding move_to_confirm confirm_address_tx_node
confirm_address_tx h time height a = do
  (node, b) ← move_to_confirm 2 h a
  confirm_address_tx_node (record node { tx_block_time = time; tx_height = height }) b

unfoldable pub unconfirm_address_tx_node : AddressTxNode → Address → Result Address
unconfirm_address_tx_node node a = do
  guard (ltb 0 a.info.next_confirmed_idx) assertion
  guard (suc node.idx == a.info.next_confirmed_idx) assertion
  t ← get (find node.idx a.txs)
  ok (record a {
    info = record a.info {
      unconfirmed_received = a.info.unconfirmed_received +ℤ received_of node.balance_diff;
      unconfirmed_sent = a.info.unconfirmed_sent +ℤ sent_of node.balance_diff;
      unconfirmed_tx_count = a.info.unconfirmed_tx_count +ℤ pos 1;
      next_confirmed_idx = a.info.next_confirmed_idx - 1;
    };
    txs = set node.idx (record t { tx_block_time = 0; tx_height = negsuc 0 }) a.txs;
  })

unfoldable pub unconfirm_address_tx : Hash → Address → Result Address
unfolding get_address_tx_node unconfirm_address_tx_node
unconfirm_address_tx h a = do node ← get_address_tx_node h a; unconfirm_address_tx_node node a

-- the loop of `_rejectAddressTxs` that brings the node to the end of the chain
unfoldable pub move_to_end : ℕ → Hash → Address → Result (AddressTxNode × Address)
unfolding get_address_tx_node switch_tx_node
move_to_end zero h a = err out_of_fuel
move_to_end (suc fuel) h a = do
  node ← get_address_tx_node h a
  elim (suc node.idx == a.info.tx_count) [
    | true ↦ ok (node, a)
    | false ↦ do
      guard (leb 2 a.info.tx_count) assertion
      b ← switch_tx_node (a.info.tx_count - 1) node.idx a
      move_to_end fuel h b
  ]

-- The code formats the key 22_ with the uint256 itself where `%s` expects its text. `printed h` is the
-- hash that the key made in this way spells, if it spells one.
module _ (printed : Hash → Option Hash) where
  abbrev pub del_printed : Option Hash → Map Hash ℕ → Map Hash ℕ
  del_printed none m = m
  del_printed (some j) m = erase j m

  unfoldable pub remove_address_tx_node : ℕ → Hash → ℤ → Address → Result Address
  remove_address_tx_node idx h diff a = do
    guard (a.info.tx_count == suc idx) assertion
    ok (record a {
      txs = erase idx a.txs;
      tx_idxs = del_printed (printed h) a.tx_idxs;
      info = record a.info {
        tx_count = a.info.tx_count - 1;
        received = a.info.received -ℤ received_of diff;
        sent = a.info.sent -ℤ sent_of diff;
        unconfirmed_received = a.info.unconfirmed_received -ℤ received_of diff;
        unconfirmed_sent = a.info.unconfirmed_sent -ℤ sent_of diff;
        unconfirmed_tx_count = a.info.unconfirmed_tx_count -ℤ pos 1;
      };
    })

  unfoldable pub reject_address_tx : Hash → Address → Result Address
  unfolding move_to_end remove_address_tx_node
  reject_address_tx h a = do
    (node, b) ← move_to_end 2 h a
    remove_address_tx_node (b.info.tx_count - 1) h node.balance_diff b
