-- ===== src/Parser/Unspents.antt =====
-- jiexi/src/Parser.cc: the unspent outputs of one address (23_ and 24_). Each function is the body of a
-- loop over the addresses of an output.
pub mod Invariant
pub mod Leak
use explorer_kv.Prelude.{ℕ, suc}
use explorer_kv.Prelude.Int.{ℤ, pos, ◌+ℤ◌, ◌-ℤ◌}
use explorer_kv.Prelude.Result.{Result, ok, err, ◌>>=◌}
use explorer_kv.Transaction.{TxOutputKey, key_ord}
use explorer_kv.OrdMap.{find, set, erase}
use explorer_kv.OrdMap.Order.{nat_ord}
use explorer_kv.Parser.Address.{AddressInfo, AddressUnspent, Address, get}

abbrev pub new_unspent : ℤ → TxOutputKey → ℕ → AddressUnspent
new_unspent value out position2 = record {
  tx_hash = out.hash;
  position = out.position;
  position2 = position2;
  value = value;
}

unfoldable pub insert_address_unspent : ℤ → TxOutputKey → ℕ → Address → Address
insert_address_unspent value out position2 a = record a {
  info = record a.info {
    next_unspent_idx = suc a.info.next_unspent_idx;
    unspent_tx_count = a.info.unspent_tx_count +ℤ pos 1;
  };
  unspent_idxs = set out a.info.next_unspent_idx a.unspent_idxs;
  unspents = set a.info.next_unspent_idx (new_unspent value out position2) a.unspents;
}

-- how `rejectTx` deletes an output of the transaction that it takes back
unfoldable pub delete_address_unspent : TxOutputKey → Address → Result Address
delete_address_unspent out a = do
  index ← get (find out a.unspent_idxs)
  ok (record a { unspents = erase index a.unspents; unspent_idxs = erase out a.unspent_idxs })

unfoldable pub remove_unspent_output : TxOutputKey → Address → Result Address
unfolding delete_address_unspent
remove_unspent_output out a =
    delete_address_unspent out
      (record a { info = record a.info { unspent_tx_count = a.info.unspent_tx_count -ℤ pos 1 } })
