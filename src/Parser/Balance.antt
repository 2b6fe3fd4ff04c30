-- ===== src/Parser/Balance.antt =====
-- jiexi/src/Parser.cc: how much a transaction moves at each address.
use explorer_kv.Prelude.{Bool, false, leb, ◌&&◌, Option, none, some, List, [], ◌∷◌}
use explorer_kv.Prelude.Int.{ℤ, pos, negsuc, ◌+ℤ◌, ◌-ℤ◌}
use explorer_kv.Prelude.Result.{Result, ok, exception, ◌>>=◌, ◌>>◌, guard}
use explorer_kv.OrdMap.{Map, find, set}
use explorer_kv.OrdMap.Order.{nat_ord}
use explorer_kv.Parser.Kvdb.{Name, CTxOut, CTransaction, Kvdb, get_prev_tx_outputs}

-- operator[] of a map makes a new entry 0.
abbrev or_zero : Option ℤ → ℤ
or_zero none = pos 0
or_zero (some v) = v

-- addressBalance[address] += value
unfoldable pub add_balance : ℤ → Name → Map Name ℤ → Map Name ℤ
add_balance value name m = set name (or_zero (find name m) +ℤ value) m

unfoldable pub add_balances : ℤ → List Name → Map Name ℤ → Map Name ℤ
unfolding add_balance
add_balances value [] m = m
add_balances value (name ∷ names) m = add_balances value names (add_balance value name m)

-- value * -1 for the outputs that are spent
unfoldable pub take_outputs : List CTxOut → Map Name ℤ → Map Name ℤ
unfolding add_balances
take_outputs [] m = m
take_outputs (out ∷ outs) m = take_outputs outs (add_balances (pos 0 -ℤ out.value) out.addresses m)

unfoldable pub give_outputs : List CTxOut → Map Name ℤ → Map Name ℤ
unfolding add_balances
give_outputs [] m = m
give_outputs (out ∷ outs) m = give_outputs outs (add_balances out.value out.addresses m)

-- The same sums are made by acceptTx and rejectTx in their passes over the inputs and the outputs.
unfoldable pub address_balance : List CTxOut → CTransaction → Map Name ℤ
unfolding take_outputs give_outputs
address_balance prev tx = give_outputs tx.vout (take_outputs prev [])

unfoldable pub get_tx_address_balance : Kvdb → CTransaction → Result (Map Name ℤ)
unfolding address_balance
get_tx_address_balance k tx = do prev ← get_prev_tx_outputs k tx; ok (address_balance prev tx)

-- the sum of outputs, as acceptTx makes it of those that a transaction spends
unfoldable pub sum_values : List CTxOut → ℤ
sum_values [] = pos 0
sum_values (out ∷ outs) = out.value +ℤ sum_values outs

-- MoneyRange: MAX_MONEY is 21000000 coins of 100000000
unfoldable pub money_range : ℤ → Bool
money_range (pos n) = leb n 2100000000000000
money_range (negsuc n) = false

-- GetValueOut of bitcoin/core.cpp: it throws on an output or a sum out of range.
unfoldable pub value_out_from : ℤ → List CTxOut → Result ℤ
unfolding money_range
value_out_from sum [] = ok sum
value_out_from sum (out ∷ outs) = do
  let sum = sum +ℤ out.value
  guard (money_range out.value && money_range sum) exception
  value_out_from sum outs

unfoldable pub get_value_out : List CTxOut → Result ℤ
unfolding value_out_from
get_value_out outs = value_out_from (pos 0) outs
