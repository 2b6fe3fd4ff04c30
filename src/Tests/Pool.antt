-- ===== src/Tests/Pool.antt =====
-- The memory pool: `first` is added, `child` is added after it, and both leave with `first`.
use explorer_kv.Prelude.{
  Bool, true, false, some, List, [], ◌∷◌, ◌≡◌, refl, sym, ap, ◌∙◌, subst, arith,
}
use explorer_kv.Prelude.Result.{Result, ok, err}
use explorer_kv.Transaction.{Hash}
use explorer_kv.OrdMap.{find, set, insert}
use explorer_kv.OrdMap.Order.{nat_ord}
use explorer_kv.MemTxRepository.{
  MemTxRepository, empty, depth, is_exist, has_conflict, mark_spent, add_tx, add_new, remove_tx,
  get_spent_end_tx, remove_tx_and_child_tx,
}
use explorer_kv.MemTxRepository.Invariant.{Inv, Added, add_tx-Added, Removed, remove_tx-Removed}
use explorer_kv.MemTxRepository.Ends.{EndOf, get_spent_end_tx_ends}
use explorer_kv.MemTxRepository.Removal.{Pruned, remove_tx_and_child_tx_fuel}
use explorer_kv.Log2Producer.{resolve_conflicts}
use explorer_kv.Log2Producer.Conflicts.{Resolved, resolve_conflicts_fuel}
use explorer_kv.Log2Producer.Run.Reload.{Inv-empty}
use explorer_kv.Tests.Data.{
  rank, first, child, rival, first-IsSpendable, child-IsSpendable, rival-IsSpendable,
}

abbrev pub with_first : MemTxRepository
with_first = record {
  txs = (10, first) ∷ [];
  spent_outputs = (record { hash = 1; position = 0 }, 10) ∷ [];
  unsync_txs_delete = [];
  unsync_txs_insert = (10, tt) ∷ [];
}

abbrev with_child : MemTxRepository
with_child = record {
  txs = (10, first) ∷ (20, child) ∷ [];
  spent_outputs =
      (record { hash = 1; position = 0 }, 10) ∷ (record { hash = 10; position = 1 }, 20) ∷ [];
  unsync_txs_delete = [];
  unsync_txs_insert = (10, tt) ∷ (20, tt) ∷ [];
}

add_first : add_tx empty first ≡ ok (with_first, true)
unfolding add_tx add_new find has_conflict set insert mark_spent
add_first = refl

add_child : add_tx with_first child ≡ ok (with_child, true)
unfolding add_tx add_new find has_conflict set insert mark_spent
add_child = refl

abbrev repo_of : MemTxRepository → Result (MemTxRepository × Bool) → MemTxRepository
repo_of m (ok (m1, _)) = m1
repo_of m (err e) = m

pub with_first-Inv : Inv rank with_first
with_first-Inv =
    let (m, adds, a) =
      add_tx-Added rank empty (Inv-empty rank) first first-IsSpendable (unfold find in refl)
        (unfold has_conflict in unfold find in refl) in
    subst (Inv rank) (ap (repo_of empty) (sym adds ∙ add_first)) a.inv'

with_child-Inv : Inv rank with_child
with_child-Inv =
    let (m, adds, a) =
      add_tx-Added rank with_first with_first-Inv child child-IsSpendable (unfold find in refl)
        (unfold has_conflict in unfold find in refl) in
    subst (Inv rank) (ap (repo_of empty) (sym adds ∙ add_child)) a.inv'

no_child_yet : is_exist with_first child.hash ≡ false
unfolding find
no_child_yet = refl

child_free : has_conflict with_first.spent_outputs child.vin ≡ false
unfolding find has_conflict
child_free = refl

add_tx-Added_example :
    (m' : MemTxRepository) × (add_tx with_first child ≡ ok (m', true))
    × Added rank with_first child m'
add_tx-Added_example =
    add_tx-Added rank with_first with_first-Inv child child-IsSpendable no_child_yet child_free

first_there : find 10 with_child.txs ≡ some first
unfolding find
first_there = refl

remove_tx-Removed_example :
    (m' : MemTxRepository) × (remove_tx with_child 10 ≡ ok m') × Removed rank with_child 10 m'
remove_tx-Removed_example = remove_tx-Removed rank with_child with_child-Inv 10 first first_there

get_spent_end_tx_ends_example :
    (h : Hash) × (get_spent_end_tx (depth with_child) with_child first ≡ ok h)
    × EndOf with_child first h
get_spent_end_tx_ends_example = get_spent_end_tx_ends rank with_child with_child-Inv first

remove_tx_and_child_tx_fuel_example :
    (m' : MemTxRepository) × (hs : List Hash) × (remove_tx_and_child_tx 3 with_child first
      ≡ ok (m', hs))
    × Pruned rank with_child first hs m'
remove_tx_and_child_tx_fuel_example =
    remove_tx_and_child_tx_fuel rank 3 with_child first with_child-Inv first_there (omega arith)

no_rival_yet : is_exist with_child rival.hash ≡ false
unfolding find
no_rival_yet = refl

resolve_conflicts_fuel_example :
    (m' : MemTxRepository) × (hs : List Hash) × (resolve_conflicts 3 with_child rival ≡ ok (m', hs))
    × Resolved rank with_child rival hs m'
resolve_conflicts_fuel_example =
    resolve_conflicts_fuel rank 3 with_child rival with_child-Inv rival-IsSpendable no_rival_yet
      (omega arith)
