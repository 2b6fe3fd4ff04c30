-- ===== src/MemTxRepository/Invariant.antt =====
-- MemTxRepository (jiexi/src/Log2Producer.cc): the well-formedness of `txs_` with its index
-- `spentOutputs_`, for addTx and removeTx.
use explorer_kv.Prelude.{
  ℕ, ◌<◌, true, false, none, some, List, [], ◌∷◌, ◌≡◌, refl, ◌⊎◌, inl, inr, if◌then◌else◌, arith,
  ◌==◌, subst, sym,
}
use explorer_kv.Prelude.Result.{ok}
use explorer_kv.Transaction.{Hash, Tx, TxOutputKey, key_ord, spends, DistinctInputs, key_beq_iff}
use explorer_kv.OrdMap.{Map, find, has, set, insert, erase, IsSorted}
use explorer_kv.OrdMap.Order.{nat_ord}
use explorer_kv.OrdMap.Laws.{find-set, find-erase, find-insert, length-erase}
use explorer_kv.OrdMap.Sorted.{set-IsSorted, erase-IsSorted}
use explorer_kv.MemTxRepository.{
  MemTxRepository, size, has_conflict, mark_spent, unmark_spent, add_new, add_tx, remove_tx,
  is_exist,
}

-- `rank` orders the transactions so that a transaction comes after those that it spends. (A hash
-- covers the hashes of the inputs, so no transaction spends itself through others.)
pub record IsSpendable (rank : Hash → ℕ) (tx : Tx) : Type 0 where
  pub regular : tx.is_coinbase ≡ false
  pub distinct : DistinctInputs tx.vin
  pub ranked : (out : TxOutputKey) → spends out tx.vin ≡ true → rank out.hash < rank tx.hash

pub record Inv (rank : Hash → ℕ) (m : MemTxRepository) : Type 0 where
  pub sorted : IsSorted m.txs
  pub keyed : (h : Hash) (tx : Tx) → find h m.txs ≡ some tx → tx.hash ≡ h
  pub spendable : (h : Hash) (tx : Tx) → find h m.txs ≡ some tx → IsSpendable rank tx
  -- what the index names is in the repository and does spend the output
  pub sound :
      (out : TxOutputKey) (h : Hash)
      → find out m.spent_outputs ≡ some h
      → (tx : Tx) × (find h m.txs ≡ some tx) × (spends out tx.vin ≡ true)
  -- every input of every transaction is in the index
  pub complete :
      (h : Hash) (tx : Tx) (out : TxOutputKey)
      → find h m.txs ≡ some tx
      → spends out tx.vin ≡ true
      → find out m.spent_outputs ≡ some h

pub find-mark_spent :
    (h : Hash) (vin : List TxOutputKey) (spent : Map TxOutputKey Hash) (out : TxOutputKey)
    → find out (mark_spent h vin spent)
      ≡ (if has out spent then find out spent else if spends out vin then some h else none)
unfolding mark_spent
find-mark_spent h [] spent out = ground arith
find-mark_spent h (i ∷ vin) spent out = ground (
  arith,
  find-mark_spent h vin (insert i h spent) out,
  find-insert i out h spent,
  key_beq_iff i out,
)

-- The test of `addTx` is whether an output of the inputs is in the index.
pub none_of_no_conflict :
    (spent : Map TxOutputKey Hash) (vin : List TxOutputKey) (out : TxOutputKey)
    → has_conflict spent vin ≡ false
    → spends out vin ≡ true
    → find out spent ≡ none
unfolding has_conflict
none_of_no_conflict spent [] out h s = cc
none_of_no_conflict spent (i ∷ vin) out h s =
    ground (arith, key_beq_iff i out, none_of_no_conflict spent vin out)

find-unmark_spent :
    (vin : List TxOutputKey) (spent : Map TxOutputKey Hash)
    → DistinctInputs vin
    → ((out : TxOutputKey) → spends out vin ≡ true → has out spent ≡ true)
    → (spent' : Map TxOutputKey Hash) × (unmark_spent vin spent ≡ ok spent')
      × ((out : TxOutputKey) → find out spent' ≡ (if spends out vin then none else find out spent))
unfolding unmark_spent
find-unmark_spent [] spent d h = (spent, refl, λ out. refl)
find-unmark_spent (i ∷ vin) spent d h =
    let (spent', runs, finds) =
      find-unmark_spent vin (erase i spent) d.1
        (λ out s. ground (arith, find-erase i out spent, key_beq_iff i out, d.0, h out)) in
    (
      spent',
      rw (h i (ground (arith, key_beq_iff i i))) runs,
      λ out. ground (arith, finds out, find-erase i out spent, key_beq_iff i out),
    )

-- An entry after a write is the written one or was there.
set_cases :
    (k h : Hash) (tx t : Tx) (txs : Map Hash Tx)
    → find h (set k tx txs) ≡ some t
    → (t ≡ tx) ⊎ (find h txs ≡ some t)
set_cases k h tx t txs e = ground (arith, find-set k h tx txs)

mark_cases :
    (h k : Hash) (vin : List TxOutputKey) (spent : Map TxOutputKey Hash) (out : TxOutputKey)
    → find out (mark_spent h vin spent) ≡ some k
    → (find out spent ≡ some k) ⊎ (h ≡ k) × (spends out vin ≡ true)
mark_cases h k vin spent out e = ground (arith, find-mark_spent h vin spent out)

module _ (rank : Hash → ℕ) (m : MemTxRepository) where
  -- what a successful `addTx` leaves
  pub record Added (tx : Tx) (m' : MemTxRepository) : Type 0 where
    pub inv' : Inv rank m'
    pub txs : (h : Hash) → find h m'.txs ≡ (if tx.hash == h then some tx else find h m.txs)
    pub inserts : m'.unsync_txs_insert ≡ insert tx.hash tt m.unsync_txs_insert
    pub deletes : m'.unsync_txs_delete ≡ m.unsync_txs_delete

  -- what `removeTx` leaves
  pub record Removed (h : Hash) (m' : MemTxRepository) : Type 0 where
    pub inv' : Inv rank m'
    pub txs : (j : Hash) → find j m'.txs ≡ (if h == j then none else find j m.txs)
    pub smaller : size m' < size m
    pub inserts : m'.unsync_txs_insert ≡ m.unsync_txs_insert
    pub deletes : m'.unsync_txs_delete ≡ insert h tt m.unsync_txs_delete

module _ (rank : Hash → ℕ) (m : MemTxRepository) (inv : Inv rank m) where
  add_new-Added :
      (tx : Tx)
      → IsSpendable rank tx
      → is_exist m tx.hash ≡ false
      → has_conflict m.spent_outputs tx.vin ≡ false
      → Added rank m tx (add_new m tx)
  unfolding add_new
  add_new-Added tx good fresh free = record {
    inv' = record {
      sorted = set-IsSorted tx.hash tx m.txs inv.sorted;
      keyed = λ h t e. ground (arith, find-set tx.hash h tx m.txs, inv.keyed h t);
      spendable = λ h t e. elim (set_cases tx.hash h tx t m.txs e) [
        | inl new ↦ subst (IsSpendable rank) (sym new) good
        | inr old ↦ inv.spendable h t old
      ];
      sound = λ out h e. elim (mark_cases tx.hash h tx.vin m.spent_outputs out e) [
        | inl old ↦
            let (t, found, s) = inv.sound out h old in
            (t, ground (arith, find-set tx.hash h tx m.txs), s)
        | inr new ↦ (tx, ground (arith, find-set tx.hash h tx m.txs), new.1)
      ];
      complete = λ h t out e s. ground (
        arith,
        find-set tx.hash h tx m.txs,
        find-mark_spent tx.hash tx.vin m.spent_outputs out,
        none_of_no_conflict m.spent_outputs tx.vin out,
        inv.complete h t out,
      );
    };
    txs = λ h. find-set tx.hash h tx m.txs;
    inserts = refl;
    deletes = refl;
  }

  -- In a well-formed pool, adding a spendable transaction that is not there and none of whose
  -- inputs is spent returns true; the pool is well-formed, holds it besides what it held, and
  -- has it to insert.
  pub add_tx-Added :
      (tx : Tx)
      → IsSpendable rank tx
      → is_exist m tx.hash ≡ false
      → has_conflict m.spent_outputs tx.vin ≡ false
      → (m' : MemTxRepository) × (add_tx m tx ≡ ok (m', true)) × Added rank m tx m'
  unfolding add_tx
  add_tx-Added tx good fresh free =
      (add_new m tx, rw (good.regular, fresh, free), add_new-Added tx good fresh free)

  module _ (h : Hash) (tx : Tx) (found : find h m.txs ≡ some tx) where
    remove_spent :
        (spent' : Map TxOutputKey Hash) × (unmark_spent tx.vin m.spent_outputs ≡ ok spent')
        × ((out : TxOutputKey)
            → find out spent' ≡ (if spends out tx.vin then none else find out m.spent_outputs))
    remove_spent =
        find-unmark_spent tx.vin m.spent_outputs (inv.spendable h tx found).distinct
          (λ out s. ground (arith, inv.complete h tx out found s))

    -- In a well-formed pool, removing a transaction that is there meets no failed assertion;
    -- the pool is well-formed, smaller, holds the other transactions as before, and has it to
    -- delete.
    pub remove_tx-Removed : (m' : MemTxRepository) × (remove_tx m h ≡ ok m') × Removed rank m h m'
    unfolding remove_tx
    remove_tx-Removed =
        let (spent', runs, finds) = remove_spent in
        (
          record m {
            txs = erase h m.txs;
            spent_outputs = spent';
            unsync_txs_delete = insert h tt m.unsync_txs_delete;
          },
          rw (found, remove_tx) (rw runs),
          record {
            inv' = record {
              sorted = erase-IsSorted h m.txs inv.sorted;
              keyed = λ j t e. ground (arith, find-erase h j m.txs, inv.keyed j t);
              spendable = λ j t e. inv.spendable j t (ground (arith, find-erase h j m.txs));
              sound = λ out j e.
                  let (t, at, s) = inv.sound out j (ground (arith, finds out)) in
                  (t, ground (arith, finds out, find-erase h j m.txs), s);
              complete = λ j t out e s. ground (
                arith,
                finds out,
                find-erase h j m.txs,
                inv.complete h tx out found,
                inv.complete j t out,
              );
            };
            txs = λ j. find-erase h j m.txs;
            smaller = length-erase h m.txs (rw found);
            inserts = refl;
            deletes = refl;
          },
        )
