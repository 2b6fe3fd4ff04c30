-- ===== src/Log2Producer/Rollback.antt =====
-- handleBlockRollback (jiexi/src/Log2Producer.cc), from a sound producer.
pub mod Readd
pub mod Rows
pub mod Sound
use explorer_kv.Prelude.{ℕ, Bool, true, false, some, List, [], ◌∷◌, ◌≡◌, map, ◌==◌, All}
use explorer_kv.Prelude.Int.{ℤ}
use explorer_kv.Transaction.{Hash, Tx, TxOutputKey, spends}
use explorer_kv.OrdMap.{find}
use explorer_kv.OrdMap.Order.{nat_ord}
use explorer_kv.MemTxRepository.{MemTxRepository, is_exist}
use explorer_kv.MemTxRepository.Invariant.{IsSpendable}
use explorer_kv.TxLogs2.{Row, LogType}
use explorer_kv.Log2Producer.{block_row}

abbrev pub hashes : List Tx → List Hash
hashes = map (λ (tx : Tx). tx.hash)

-- no transaction of the pool spends an output that `tx` spends
abbrev pub NoClash : MemTxRepository → Tx → Type 0
NoClash m tx =
    (out : TxOutputKey)
    → spends out tx.vin ≡ true
    → (h : Hash) (t : Tx) → find h m.txs ≡ some t
    → spends out t.vin ≡ false

-- `tx` can come back to the pool, where it is not the coinbase `c`.
pub record CanReturn (rank : Hash → ℕ) (c : Hash) (m : MemTxRepository) (tx : Tx) : Type 0 where
  pub coinbase : tx.is_coinbase ≡ (c == tx.hash)
  pub spendable : tx.is_coinbase ≡ false → IsSpendable rank tx
  pub fresh : is_exist m tx.hash ≡ false
  pub clashless : NoClash m tx

-- two transactions of one block
pub record Apart (tx u : Tx) : Type 0 where
  pub hashes : (tx.hash == u.hash) ≡ false
  pub inputs : (out : TxOutputKey) → spends out u.vin ≡ true → spends out tx.vin ≡ false

abbrev pub AllApart : List Tx → Type 0
AllApart [] = Unit
AllApart (tx ∷ txs) = All (Apart tx) txs × AllApart txs
