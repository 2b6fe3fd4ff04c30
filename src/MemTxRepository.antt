-- ===== src/MemTxRepository.antt =====
-- jiexi/src/Log2Producer.{h,cc}, MemTxRepository: the unconfirmed transactions and the outputs that
-- they spend. The proofs are in the modules below.
pub mod Invariant
pub mod Ends
pub mod Unsynced
pub mod Removal
use explorer_kv.Prelude.{
  ℕ, zero, suc, ◌+◌, ◌<◌, Bool, true, false, not, ◌||◌, Option, none, some, List, [], ◌∷◌, ◌++◌,
  ◌≡◌, if◌then◌else◌, ltb, ◌==◌, length, is_some,
}
use explorer_kv.Prelude.Result.{
  Result, ok, err, exception, assertion, out_of_fuel, unmodelled, ◌>>=◌, ◌>>◌, guard,
}
use explorer_kv.Transaction.{Hash, Tx, TxOutputKey, key_ord}
use explorer_kv.OrdMap.{Map, find, has, set, insert, erase, last?}
use explorer_kv.OrdMap.Order.{nat_ord}

pub record MemTxRepository : Type 0 where
  pub txs : Map Hash Tx
  pub spent_outputs : Map TxOutputKey Hash
  pub unsync_txs_delete : Map Hash (Unit {0})
  pub unsync_txs_insert : Map Hash (Unit {0})

abbrev pub empty : MemTxRepository
empty = record { txs = []; spent_outputs = []; unsync_txs_delete = []; unsync_txs_insert = [] }

abbrev pub size : MemTxRepository → ℕ
size m = length m.txs

abbrev pub is_exist : MemTxRepository → Hash → Bool
is_exist m h = has h m.txs

-- the first loop of `addTx`: is some input spent?
unfoldable pub has_conflict : Map TxOutputKey Hash → List TxOutputKey → Bool
has_conflict spent [] = false
has_conflict spent (i ∷ vin) = if has i spent then true else has_conflict spent vin

-- the second loop of `addTx`
unfoldable pub mark_spent : Hash → List TxOutputKey → Map TxOutputKey Hash → Map TxOutputKey Hash
mark_spent h [] spent = spent
mark_spent h (i ∷ vin) spent = mark_spent h vin (insert i h spent)

unfoldable pub add_new : MemTxRepository → Tx → MemTxRepository
add_new m tx = record m {
  txs = set tx.hash tx m.txs;
  spent_outputs = mark_spent tx.hash tx.vin m.spent_outputs;
  unsync_txs_insert = insert tx.hash tt m.unsync_txs_insert;
}

unfoldable pub add_tx : MemTxRepository → Tx → Result (MemTxRepository × Bool)
unfolding add_new
add_tx m tx = do
  guard (not tx.is_coinbase) assertion
  if is_exist m tx.hash || has_conflict m.spent_outputs tx.vin
      then ok (m, false)
      else ok (add_new m tx, true)

-- the loop of `getSpentEndTx`: who spends the first spent output from `i` on, of `n` left?
unfoldable pub spender : Map TxOutputKey Hash → Hash → ℕ → ℕ → Option Hash
spender spent h i zero = none
spender spent h i (suc n) = elim (find (record { hash = h; position = i }) spent) [
  | none ↦ spender spent h (i + 1) n
  | some child ↦ some child
]

-- `txs_[h]`. For a missing key operator[] would insert an empty transaction: the model stops there,
-- and the theorems about its callers show that the key is present.
abbrev pub tx_at : MemTxRepository → Hash → Result Tx
tx_at m h = elim (find h m.txs) [ none ↦ err unmodelled | some tx ↦ ok tx ]

-- Each level of the recursion takes one unit of fuel.
unfoldable pub get_spent_end_tx : ℕ → MemTxRepository → Tx → Result Hash
get_spent_end_tx zero m tx = err out_of_fuel
get_spent_end_tx (suc fuel) m tx = elim (spender m.spent_outputs tx.hash 0 tx.vout) [
  | none ↦ ok tx.hash
  | some child ↦ tx_at m child >>= get_spent_end_tx fuel m
]

-- the loop of `getConflictTx`: who spends the first input that is spent?
unfoldable pub conflict_spender : Map TxOutputKey Hash → List TxOutputKey → Option Hash
conflict_spender spent [] = none
conflict_spender spent (i ∷ vin) = elim (find i spent) [
  | none ↦ conflict_spender spent vin
  | some h ↦ some h
]

-- An end transaction is at most `size` spends away: see `Ends`.
abbrev pub depth : MemTxRepository → ℕ
depth m = suc (size m)

unfoldable pub get_conflict_tx : MemTxRepository → Tx → Result Hash
get_conflict_tx m tx = elim (conflict_spender m.spent_outputs tx.vin) [
  | none ↦ ok tx.hash
  | some h ↦ if h == tx.hash then err exception else (tx_at m h >>= get_spent_end_tx (depth m) m)
]

-- the loop of `removeTx`, with its assertion
unfoldable pub unmark_spent :
    List TxOutputKey → Map TxOutputKey Hash → Result (Map TxOutputKey Hash)
unmark_spent [] spent = ok spent
unmark_spent (i ∷ vin) spent = do guard (has i spent) assertion; unmark_spent vin (erase i spent)

-- removeTx(hash)
unfoldable pub remove_tx : MemTxRepository → Hash → Result MemTxRepository
remove_tx m h = elim (find h m.txs) [
  | none ↦ err exception
  | some tx ↦ do
    spent ← unmark_spent tx.vin m.spent_outputs
    ok (record m {
      txs = erase h m.txs;
      spent_outputs = spent;
      unsync_txs_delete = insert h tt m.unsync_txs_delete;
    })
]

unfoldable pub remove_txs : MemTxRepository → List Hash → Result MemTxRepository
remove_txs m [] = ok m
remove_txs m (h ∷ hs) = do m' ← remove_tx m h; remove_txs m' hs

-- removeTx(): an end transaction of the last one of the map
unfoldable pub remove_last_tx : MemTxRepository → Result (MemTxRepository × Hash)
remove_last_tx m = elim (last? m.txs) [
  | none ↦ err assertion
  | some (_, tx) ↦ do h ← get_spent_end_tx (depth m) m tx; m' ← remove_tx m h; ok (m', h)
]

-- The loop of `removeTxAndChildTx` on fuel, with the hashes that it appends to `removedHashes`.
unfoldable pub remove_tx_and_child_tx :
    ℕ → MemTxRepository → Tx → Result (MemTxRepository × List Hash)
remove_tx_and_child_tx zero m tx = err out_of_fuel
remove_tx_and_child_tx (suc fuel) m tx = do
  h ← get_spent_end_tx (depth m) m tx
  m' ← remove_tx m h
  let rest = remove_tx_and_child_tx fuel m' tx
  if tx.hash == h then ok (m', h ∷ []) else (rest >>= λ (m'', hs). ok (m'', h ∷ hs))

unfoldable pub ignore_unsync_data : MemTxRepository → MemTxRepository
ignore_unsync_data m = record m { unsync_txs_insert = []; unsync_txs_delete = [] }
