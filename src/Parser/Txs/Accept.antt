-- ===== src/Parser/Txs/Accept.antt =====
-- jiexi/src/Parser.cc, acceptTx and rejectTx on the whole database.
use explorer_kv.Prelude.{
  Bool, true, Option, some, List, ◌≡◌, refl, sym, ap, ◌∙◌, subst, arith, inl, inr, Bool-cases,
}
use explorer_kv.Prelude.Int.{negsuc, beq_ℤ}
use explorer_kv.Prelude.Result.{ok, assertion, guard, ◌>>=◌, >>=-ok, >>=-eq-ok, ok-injective}
use explorer_kv.Transaction.{Hash}
use explorer_kv.TxLogs2.{Ledger, Status, LogType, after}
use explorer_kv.OrdMap.{find, has, set, erase}
use explorer_kv.OrdMap.Order.{nat_ord}
use explorer_kv.OrdMap.Laws.{find-set, find-erase}
use explorer_kv.Parser.Address.{get}
use explorer_kv.Parser.AddressTxs.Ledger.{Represents}
use explorer_kv.Parser.AddressTxs.Run.{accept, reject, handle_address_log}
use explorer_kv.Parser.Kvdb.{Name, Kvdb, CTxOut, TxObject, address_at, get_prev_tx_outputs}
use explorer_kv.Parser.Balance.{address_balance, get_value_out}
use explorer_kv.Parser.Txs.{
  TxLog2, Parser, add_unconfirmed_tx_pool, remove_unconfirmed_tx_pool, spend_step, insert_outputs,
  insert_spend_txs, remove_unspent_outputs, insert_address_txs, tx_object, accept_tx_kvdb,
  accept_tx, restore_step, delete_outputs, reject_tx_kvdb, reject_tx,
}
use explorer_kv.Parser.Txs.Addresses.{address_balance-IsSorted}
use explorer_kv.Parser.Txs.World.{World, Stacks, seen_by, moved, visit-Represents}
use explorer_kv.Parser.Txs.Confirm.{write_notification_logs-kvdb}
use explorer_kv.Parser.Txs.Outputs.{
  Keeps, Keeps-refl, Keeps-trans, SameTxs-Represents, insert_outputs-Keeps, restore_inputs-Keeps,
  remove_unspent_outputs-Keeps, delete_outputs-Keeps, insert_spend_txs-Keeps,
}

spend_step-Keeps :
    (log : TxLog2) (prev : List CTxOut) (k k' : Kvdb) → spend_step log prev k ≡ ok k' → Keeps k k'
unfolding spend_step
spend_step-Keeps log prev k k' run = elim (Bool-cases log.tx.is_coinbase) [
  | inl coinbase ↦
      let left : ok k ≡ ok k' = sym (rw (coinbase) refl) ∙ run in
      subst (Keeps k) (ok-injective left) (Keeps-refl k)
  | inr regular ↦
      let there : (remove_unspent_outputs log.tx.vin prev k >>= λ k.
      ok (insert_spend_txs log.tx_hash 0 log.tx.vin k))
          ≡ ok k' =
        sym (rw (regular) refl) ∙ run in
      let (k1, removed, left) = >>=-eq-ok (remove_unspent_outputs log.tx.vin prev k) _ there in
      subst (Keeps k) (ok-injective left) (
        Keeps-trans k k1 _ (remove_unspent_outputs-Keeps log.tx.vin prev k k1 removed)
          (insert_spend_txs-Keeps log.tx_hash 0 log.tx.vin k1))
]

restore_step-Keeps :
    (log : TxLog2) (prev : List CTxOut) (k k' : Kvdb) → restore_step log prev k ≡ ok k' → Keeps k k'
unfolding restore_step
restore_step-Keeps log prev k k' run = elim (Bool-cases log.tx.is_coinbase) [
  | inl coinbase ↦
      let left : ok k ≡ ok k' = sym (rw (coinbase) refl) ∙ run in
      subst (Keeps k) (ok-injective left) (Keeps-refl k)
  | inr regular ↦ restore_inputs-Keeps log.tx.vin prev k k' (sym (rw (regular) refl) ∙ run)
]

module _ (touches : Name → Hash → Bool) (printed : Hash → Option Hash)
    (own : (h j : Hash) → printed h ≡ some j → j ≡ h) (stacks : Stacks) (s : Ledger) (log : TxLog2)
    (k : Kvdb) (world : World touches stacks s k) (prev : List CTxOut)
    (agrees : (name : Name)
      → has name (address_balance prev log.tx) ≡ touches name log.tx_hash) where
  -- the last step of `acceptTx` on the database, which lists the transaction
  accepted :
      (object : TxObject) (k5 : Kvdb)
      → ((name : Name)
          → Represents
              (moved touches (λ stack. stack) log.tx_hash stacks name)
              (seen_by touches name (after s LogType.accept log.tx_hash))
              (address_at name k5))
      → k5.tx_objects ≡ set log.tx_hash object k.tx_objects
      → k5.unconfirmed_txs ≡ k.unconfirmed_txs
      → World touches
          (moved touches (λ stack. stack) log.tx_hash stacks)
          (after s LogType.accept log.tx_hash)
          (record k5 { unconfirmed_txs = set log.tx_hash object.fee k5.unconfirmed_txs })
  unfolding address_at
  accepted object k5 seen objects pool = record {
    at = seen;
    objects = λ j there.
        ap (has j) objects
        ∙ ground (arith, there, find-set log.tx_hash j object k.tx_objects, world.objects j);
    pool = λ j.
        ap (λ x. has j (set log.tx_hash object.fee x)) pool
        ∙ ground (arith, find-set log.tx_hash j object.fee k.unconfirmed_txs, world.pool j);
  }

  accept_tx_kvdb-World :
      (k' : Kvdb)
      → s log.tx_hash ≡ Status.absent
      → accept_tx_kvdb log prev k ≡ ok k'
      → World touches
          (moved touches (λ stack. stack) log.tx_hash stacks)
          (after s LogType.accept log.tx_hash)
          k'
  unfolding accept_tx_kvdb insert_address_txs handle_address_log address_at
  accept_tx_kvdb-World k' absent run =
      let (k1, outs, run1) = >>=-eq-ok (insert_outputs log.tx_hash 0 log.tx.vout k) _ run in
      let (value_out, valued, run2) = >>=-eq-ok (get_value_out log.tx.vout) _ run1 in
      let object : TxObject = tx_object log.tx prev value_out in
      let k2 : Kvdb = record k1 { tx_objects = set log.tx_hash object k1.tx_objects } in
      let (k3, spent, run3) = >>=-eq-ok (spend_step log prev k2) _ run2 in
      let (k4, listed, left) =
        >>=-eq-ok (insert_address_txs log (address_balance prev log.tx) k3) _ run3 in
      let kept : Keeps k2 k3 = spend_step-Keeps log prev k2 k3 spent in
      let held1 = insert_outputs-Keeps log.tx_hash 0 log.tx.vout k k1 outs in
      let (k5, visited, same, seen) =
        visit-Represents touches printed own (λ v. accept log.tx_hash log.max_blk_timestamp v)
          LogType.accept log.tx_hash (λ stack. stack) (λ v. refl) (λ v. refl) (λ v stack. refl)
          stacks s k3
          (λ name.
            SameTxs-Represents (stacks name) (seen_by touches name s) (address_at name k1)
              (address_at name k3) (kept.txs name)
              (SameTxs-Represents (stacks name) (seen_by touches name s) (address_at name k)
                (address_at name k1) (held1.txs name) (world.at name)))
          (address_balance prev log.tx) (address_balance-IsSorted prev log.tx) agrees absent
          (λ name v at. tt) in
      let one : k5 ≡ k4 = ok-injective (sym visited ∙ listed) in
      subst (World touches _ _) (ok-injective left) (
        subst
          (λ x.
            World touches (moved touches (λ stack. stack) log.tx_hash stacks)
              (after s LogType.accept log.tx_hash)
              (record x { unconfirmed_txs = set log.tx_hash object.fee x.unconfirmed_txs }))
          (ok-injective (sym visited ∙ listed))
          (accepted object k5 seen
            (ap (λ x. x.tx_objects) same ∙ kept.objects ∙ ap (set log.tx_hash object) held1.objects)
            (ap (λ x. x.unconfirmed_txs) same ∙ kept.pool ∙ held1.pool)))

  -- the database before the last loop of `rejectTx`
  rejecting :
      (k2 : Kvdb) (t : TxObject)
      → Keeps k k2
      → s log.tx_hash ≡ Status.unconfirmed
      → (k' : Kvdb)
      → k'.tx_objects ≡ set log.tx_hash (record t { is_double_spend = true }) k2.tx_objects
      → k'.unconfirmed_txs ≡ erase log.tx_hash k2.unconfirmed_txs
      → ((name : Name)
          → Represents
              (moved touches (λ stack. stack) log.tx_hash stacks name)
              (seen_by touches name (after s LogType.reject log.tx_hash))
              (address_at name k'))
      → World touches
          (moved touches (λ stack. stack) log.tx_hash stacks)
          (after s LogType.reject log.tx_hash)
          k'
  rejecting k2 t kept waits k' objects pool seen = record {
    at = seen;
    objects = λ j there.
        ap (has j)
          (objects ∙ ap (set log.tx_hash (record t { is_double_spend = true })) kept.objects)
        ∙ ground (
          arith,
          there,
          find-set log.tx_hash j (record t { is_double_spend = true }) k.tx_objects,
          world.objects j,
        );
    pool = λ j.
        ap (has j) (pool ∙ ap (erase log.tx_hash) kept.pool)
        ∙ ground (arith, find-erase log.tx_hash j k.unconfirmed_txs, world.pool j);
  }

  reject_tx_kvdb-World :
      (k' : Kvdb)
      → s log.tx_hash ≡ Status.unconfirmed
      → reject_tx_kvdb printed log prev k ≡ ok k'
      → World touches
          (moved touches (λ stack. stack) log.tx_hash stacks)
          (after s LogType.reject log.tx_hash)
          k'
  unfolding reject_tx_kvdb handle_address_log address_at
  reject_tx_kvdb-World k' waits run =
      let (k1, restored, run1) = >>=-eq-ok (restore_step log prev k) _ run in
      let (k2, deleted, run2) = >>=-eq-ok (delete_outputs log.tx_hash 0 log.tx.vout k1) _ run1 in
      let (t, at, run3) = >>=-eq-ok (get (find log.tx_hash k2.tx_objects)) _ run2 in
      let kept : Keeps k k2 =
        Keeps-trans k k1 k2 (restore_step-Keeps log prev k k1 restored)
          (delete_outputs-Keeps log.tx_hash 0 log.tx.vout k1 k2 deleted) in
      let k3 : Kvdb = record k2 {
        tx_objects = set log.tx_hash (record t { is_double_spend = true }) k2.tx_objects;
        unconfirmed_txs = erase log.tx_hash k2.unconfirmed_txs;
      } in
      let (k5, visited, same, seen) =
        visit-Represents touches printed own (λ v. reject log.tx_hash) LogType.reject log.tx_hash
          (λ stack. stack) (λ v. refl) (λ v. refl) (λ v stack. refl) stacks s k3
          (λ name.
            SameTxs-Represents (stacks name) (seen_by touches name s) (address_at name k)
              (address_at name k2) (kept.txs name) (world.at name))
          (address_balance prev log.tx) (address_balance-IsSorted prev log.tx) agrees waits
          (λ name v at. tt) in
      subst (World touches _ _) (ok-injective (sym visited ∙ run3)) (
        rejecting k2 t kept waits k5 (ap (λ x. x.tx_objects) same)
          (ap (λ x. x.unconfirmed_txs) same) seen)

module _ (touches : Name → Hash → Bool) (printed : Hash → Option Hash)
    (own : (h j : Hash) → printed h ≡ some j → j ≡ h) (stacks : Stacks) (s : Ledger) (p p' : Parser)
    (log : TxLog2) (world : World touches stacks s p.kvdb) (prev : List CTxOut)
    (read : get_prev_tx_outputs p.kvdb log.tx ≡ ok prev)
    (agrees : (name : Name)
      → has name (address_balance prev log.tx) ≡ touches name log.tx_hash) where
  -- From a database that agrees with the log, accepting an absent transaction whose balances
  -- are at the addresses that it touches, where it returns, leaves a database that agrees with
  -- the log and the new entry.
  pub accept_tx-World :
      s log.tx_hash ≡ Status.absent
      → accept_tx log p ≡ ok p'
      → World touches
          (moved touches (λ stack. stack) log.tx_hash stacks)
          (after s LogType.accept log.tx_hash)
          p'.kvdb
  unfolding accept_tx add_unconfirmed_tx_pool address_at
  accept_tx-World absent run =
      let (_, low, run0) = >>=-eq-ok (guard (beq_ℤ log.blk_height (negsuc 0)) assertion) _ run in
      let (k1, made, left) =
        >>=-eq-ok (accept_tx_kvdb log prev p.kvdb) _ (sym (>>=-ok read _) ∙ run0) in
      let w : World touches (moved touches (λ stack. stack) log.tx_hash stacks)
          (after s LogType.accept log.tx_hash) k1 =
        accept_tx_kvdb-World touches printed own stacks s log p.kvdb world prev agrees k1 absent
          made in
      subst
        (λ x.
          World touches (moved touches (λ stack. stack) log.tx_hash stacks)
            (after s LogType.accept log.tx_hash) x.kvdb)
        (ok-injective left)
        (subst
          (World touches (moved touches (λ stack. stack) log.tx_hash stacks)
            (after s LogType.accept log.tx_hash))
          (sym (
            write_notification_logs-kvdb (address_balance prev log.tx) log
              (add_unconfirmed_tx_pool log (record p { kvdb = k1 }))))
          (record { at = w.at; objects = w.objects; pool = w.pool }))

  -- From a database that agrees with the log, rejecting an unconfirmed transaction whose
  -- balances are at the addresses that it touches, where it returns, leaves a database that
  -- agrees with the log and the new entry. The text that formats a hash as a key names no other
  -- hash.
  pub reject_tx-World :
      s log.tx_hash ≡ Status.unconfirmed
      → reject_tx printed log p ≡ ok p'
      → World touches
          (moved touches (λ stack. stack) log.tx_hash stacks)
          (after s LogType.reject log.tx_hash)
          p'.kvdb
  unfolding reject_tx remove_unconfirmed_tx_pool address_at
  reject_tx-World waits run =
      let (k1, made, left) =
        >>=-eq-ok (reject_tx_kvdb printed log prev p.kvdb) _ (sym (>>=-ok read _) ∙ run) in
      let w : World touches (moved touches (λ stack. stack) log.tx_hash stacks)
          (after s LogType.reject log.tx_hash) k1 =
        reject_tx_kvdb-World touches printed own stacks s log p.kvdb world prev agrees k1 waits
          made in
      subst
        (λ x.
          World touches (moved touches (λ stack. stack) log.tx_hash stacks)
            (after s LogType.reject log.tx_hash) x.kvdb)
        (ok-injective left)
        (subst
          (World touches (moved touches (λ stack. stack) log.tx_hash stacks)
            (after s LogType.reject log.tx_hash))
          (sym (
            write_notification_logs-kvdb (address_balance prev log.tx) log
              (remove_unconfirmed_tx_pool log (record p { kvdb = k1 }))))
          (record { at = w.at; objects = w.objects; pool = w.pool }))
