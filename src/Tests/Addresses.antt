-- ===== src/Tests/Addresses.antt =====
-- The chain and the unspent outputs of one address.
use explorer_kv.Prelude.{Option, none, some, List, [], ◌∷◌, ◌≡◌, refl, ap, arith, inl, inr}
use explorer_kv.Prelude.Int.{pos, negsuc, ◌+ℤ◌}
use explorer_kv.Prelude.Result.{ok}
use explorer_kv.Transaction.{Hash, TxOutputKey, key_ord}
use explorer_kv.TxLogs2.{Status}
use explorer_kv.OrdMap.{find, set}
use explorer_kv.OrdMap.Order.{nat_ord}
use explorer_kv.Parser.Address.{Address, new_address, init}
use explorer_kv.Parser.AddressTxs.{new_node, insert_address_tx, reject_address_tx}
use explorer_kv.Parser.AddressTxs.Listed.{IsNew, set_cases}
use explorer_kv.Parser.AddressTxs.Invariant.{IsChain, new_address-IsChain}
use explorer_kv.Parser.AddressTxs.Accept.{insert_address_tx-IsChain}
use explorer_kv.Parser.AddressTxs.Ledger.{Represents, Leftover}
use explorer_kv.Parser.AddressTxs.Run.{
  AddressLog, accept, confirm, unconfirm, reject, handle_address_logs, stack_after, ledger_after,
  new_address-Represents, new_address-Leftover, handle_address_logs-Represents,
}
use explorer_kv.Parser.AddressTxs.RoundTrip.{SameChain, reject_address_tx-insert_address_tx}
use explorer_kv.Parser.Unspents.{insert_address_unspent, delete_address_unspent}
use explorer_kv.Parser.Unspents.Invariant.{
  IsUnspent, new_address-IsUnspent, insert_address_unspent-IsUnspent, Spent,
  remove_unspent_output-Spent,
}
use explorer_kv.Parser.Unspents.Leak.{SameOutputs, delete_address_unspent-insert_address_unspent}

abbrev pub spelled : Hash → Option Hash
spelled h = some h

pub spelled-own : (h j : Hash) → spelled h ≡ some j → j ≡ h
spelled-own h j text = cc

-- two transactions come, the second is confirmed first, and the other one is taken back
abbrev logs : List AddressLog
logs =
    accept 10 5 (pos 50)
    ∷ accept 20 6 (negsuc 29)
    ∷ confirm 20 7 (pos 3)
    ∷ confirm 10 8 (pos 4)
    ∷ unconfirm 10
    ∷ reject 10
    ∷ []

handle_address_logs-Represents_example :
    (b : Address) × (handle_address_logs spelled logs new_address ≡ ok b)
    × Represents (stack_after [] logs) (ledger_after (λ h. Status.absent) logs) b
    × Leftover spelled (ledger_after (λ h. Status.absent) logs) b
handle_address_logs-Represents_example =
    handle_address_logs-Represents spelled spelled-own logs [] (λ h. Status.absent) new_address
      new_address-Represents (new_address-Leftover spelled)
      (refl, tt, (refl, tt, (refl, refl, (refl, refl, (refl, refl, (refl, tt, tt))))))

-- an address with the transaction 10
abbrev one_tx : Address
one_tx = insert_address_tx 10 5 (pos 50) new_address

start_IsNew : (h : Hash) → IsNew h new_address.txs
unfolding new_address find
start_IsNew h i t at = cc

one_tx-IsChain : IsChain one_tx
one_tx-IsChain =
    insert_address_tx-IsChain 10 5 (pos 50) new_address new_address-IsChain (start_IsNew 10)

one_tx-IsNew : IsNew 20 one_tx.txs
unfolding insert_address_tx
one_tx-IsNew i t at =
    elim (set_cases new_address.info.tx_count i (new_node 10 5 (pos 50)) t new_address.txs at) [
      | inl (here, same) ↦ λ twenty.
          (let ten : 10 ≡ t.tx_hash = ap (λ x. x.tx_hash) same in
            let no : ⊥ = omega (arith, ten, twenty) in no)
      | inr (other, old) ↦ start_IsNew 20 i t old
    ]

reject_address_tx-insert_address_tx_example :
    (b : Address) × (reject_address_tx spelled 20 (insert_address_tx 20 6 (negsuc 29) one_tx)
      ≡ ok b)
    × IsChain b
    × SameChain one_tx b
reject_address_tx-insert_address_tx_example =
    reject_address_tx-insert_address_tx spelled one_tx one_tx-IsChain 20 (spelled-own 20) 6
      (negsuc 29) one_tx-IsNew

abbrev output : TxOutputKey
output = record { hash = 10; position = 0 }

abbrev other_output : TxOutputKey
other_output = record { hash = 10; position = 1 }

nothing_unspent : (out : TxOutputKey) → find out new_address.unspent_idxs ≡ none
unfolding new_address find
nothing_unspent out = refl

-- an address with one unspent output
abbrev one_output : Address
one_output = insert_address_unspent (pos 50) output 0 new_address

one_output-IsUnspent : IsUnspent one_output
one_output-IsUnspent =
    insert_address_unspent-IsUnspent (pos 50) output 0 new_address new_address-IsUnspent
      (nothing_unspent output)

one_output_at : find output one_output.unspent_idxs ≡ some 0
unfolding insert_address_unspent new_address init find set
one_output_at = refl

other_output_free : find other_output one_output.unspent_idxs ≡ none
unfolding insert_address_unspent new_address init find set
other_output_free = refl

remove_unspent_output-Spent_example : (b : Address) × Spent output one_output b
remove_unspent_output-Spent_example =
    remove_unspent_output-Spent output 0 one_output one_output-IsUnspent one_output_at

delete_address_unspent-insert_address_unspent_example :
    (b : Address) × (delete_address_unspent other_output
        (insert_address_unspent (pos 30) other_output 0 one_output)
      ≡ ok b)
    × SameOutputs one_output b
    × (b.info.unspent_tx_count ≡ one_output.info.unspent_tx_count +ℤ pos 1)
    × (¬ IsUnspent b)
delete_address_unspent-insert_address_unspent_example =
    delete_address_unspent-insert_address_unspent (pos 30) other_output 0 one_output
      one_output-IsUnspent other_output_free
