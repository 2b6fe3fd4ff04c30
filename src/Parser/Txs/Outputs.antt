-- ===== src/Parser/Txs/Outputs.antt =====
-- The loops of acceptTx and rejectTx over the inputs and the outputs change the unspent outputs of the
-- addresses and leave their chains of transactions alone.
use explorer_kv.Prelude.{
  ℕ, suc, List, [], ◌∷◌, ◌≡◌, refl, sym, ap, ◌∙◌, subst, ◌==◌, ==_iff, inl, inr, Bool-cases,
}
use explorer_kv.Prelude.Int.{ℤ}
use explorer_kv.Prelude.Result.{Result, ok, >>=-eq-ok, ok-injective}
use explorer_kv.Transaction.{Hash, TxOutputKey, key_ord}
use explorer_kv.TxLogs2.{Ledger}
use explorer_kv.OrdMap.{find, set, erase}
use explorer_kv.OrdMap.Order.{nat_ord}
use explorer_kv.Parser.Address.{Address, get}
use explorer_kv.Parser.AddressTxs.Ledger.{Represents}
use explorer_kv.Parser.Unspents.{
  insert_address_unspent, delete_address_unspent, remove_unspent_output,
}
use explorer_kv.Parser.Kvdb.{Name, CTxOut, Kvdb, address_at, update_address, for_each}
use explorer_kv.Parser.Txs.{
  insert_spend_txs, insert_unspents, insert_outputs, remove_unspent_outputs, remove_input,
  restore_input, delete_outputs, zip,
}
use explorer_kv.Parser.Txs.Addresses.{address_at-update}

-- the address `a` with the unspent outputs of `b`
abbrev pub with_outputs : Address → Address → Address
with_outputs a b = record a {
  info = record a.info {
    unspent_tx_count = b.info.unspent_tx_count;
    next_unspent_idx = b.info.next_unspent_idx;
  };
  unspents = b.unspents;
  unspent_idxs = b.unspent_idxs;
}

-- `b` has the chain of `a`.
abbrev pub SameTxs : Address → Address → Type 0
SameTxs a b = b ≡ with_outputs a b

SameTxs-trans : (a b c : Address) → SameTxs a b → SameTxs b c → SameTxs a c
SameTxs-trans a b c first second = second ∙ ap (λ x. with_outputs x c) first

pub SameTxs-Represents :
    (stack : List Hash) (s : Ledger) (a b : Address)
    → SameTxs a b
    → Represents stack s a
    → Represents stack s b
SameTxs-Represents stack s a b same r = subst (Represents stack s) (sym same) moved
  where
    moved : Represents stack s (with_outputs a b)
    moved = record {
      chain = record {
        listed = r.chain.listed;
        balanced = record {
          received = r.chain.balanced.received;
          sent = r.chain.balanced.sent;
          unconfirmed_tx_count = r.chain.balanced.unconfirmed_tx_count;
          unconfirmed_received = r.chain.balanced.unconfirmed_received;
          unconfirmed_sent = r.chain.balanced.unconfirmed_sent;
        };
      };
      size = r.size;
      stacked = r.stacked;
      status = r.status;
      found = r.found;
    }

-- the chains, the objects and the list of the unconfirmed transactions
pub record Keeps (k k' : Kvdb) : Type 0 where
  pub txs : (name : Name) → SameTxs (address_at name k) (address_at name k')
  pub objects : k'.tx_objects ≡ k.tx_objects
  pub pool : k'.unconfirmed_txs ≡ k.unconfirmed_txs

pub Keeps-refl : (k : Kvdb) → Keeps k k
Keeps-refl k = record { txs = λ name. refl; objects = refl; pool = refl }

pub Keeps-trans : (k1 k2 k3 : Kvdb) → Keeps k1 k2 → Keeps k2 k3 → Keeps k1 k3
Keeps-trans k1 k2 k3 first second = record {
  txs = λ name.
      SameTxs-trans (address_at name k1) (address_at name k2) (address_at name k3) (first.txs name)
        (second.txs name);
  objects = second.objects ∙ first.objects;
  pool = second.pool ∙ first.pool;
}

-- one address
update_address-Keeps :
    (f : Address → Result Address) (name : Name) (k k' : Kvdb)
    → ((a b : Address) → f a ≡ ok b → SameTxs a b)
    → update_address f name k ≡ ok k'
    → Keeps k k'
unfolding update_address
update_address-Keeps f name k k' keeps run =
    let (b, ran, left) = >>=-eq-ok (f (address_at name k)) _ run in
    subst (Keeps k) (ok-injective left) (record {
      txs = λ other. elim (Bool-cases (name == other)) [
        | inl here ↦
            let moved : address_at other (record k { addresses = set name b k.addresses }) ≡ b =
              address_at-update name other b k ∙ rw (here) refl in
            subst
              (λ x. SameTxs x (address_at other (record k { addresses = set name b k.addresses })))
              (ap (λ n. address_at n k) ((==_iff name other).0 here))
              (subst (SameTxs (address_at name k)) (sym moved) (keeps (address_at name k) b ran))
        | inr apart ↦
            let stays : address_at other (record k { addresses = set name b k.addresses })
                ≡ address_at other k =
              address_at-update name other b k ∙ rw (apart) refl in
            subst (SameTxs (address_at other k)) (sym stays) refl
      ];
      objects = refl;
      pool = refl;
    })

pub for_each-Keeps {ℓ} :
    {A : Type ℓ} (f : A → Kvdb → Result Kvdb)
    → ((x : A) (k k' : Kvdb) → f x k ≡ ok k' → Keeps k k')
    → (xs : List A) (k k' : Kvdb) → for_each f xs k ≡ ok k'
    → Keeps k k'
unfolding for_each
for_each-Keeps f keeps [] k k' run = subst (Keeps k) (ok-injective run) (Keeps-refl k)
for_each-Keeps f keeps (x ∷ xs) k k' run =
    let (k1, first, rest) = >>=-eq-ok (f x k) _ run in
    Keeps-trans k k1 k' (keeps x k k1 first) (for_each-Keeps f keeps xs k1 k' rest)

-- one output of one address
insert-SameTxs :
    (value : ℤ) (out : TxOutputKey) (j : ℕ) (a b : Address)
    → ok (insert_address_unspent value out j a) ≡ ok b
    → SameTxs a b
unfolding insert_address_unspent
insert-SameTxs value out j a b run = subst (SameTxs a) (ok-injective run) refl

delete-SameTxs :
    (out : TxOutputKey) (a b : Address) → delete_address_unspent out a ≡ ok b → SameTxs a b
unfolding delete_address_unspent
delete-SameTxs out a b run =
    let (index, at, left) = >>=-eq-ok (get (find out a.unspent_idxs)) _ run in
    subst (SameTxs a) (ok-injective left) refl

remove-SameTxs :
    (out : TxOutputKey) (a b : Address) → remove_unspent_output out a ≡ ok b → SameTxs a b
unfolding remove_unspent_output delete_address_unspent
remove-SameTxs out a b run =
    let (index, at, left) = >>=-eq-ok (get (find out a.unspent_idxs)) _ run in
    subst (SameTxs a) (ok-injective left) refl

pub insert_unspents-Keeps :
    (value : ℤ) (out : TxOutputKey) (j : ℕ) (names : List Name) (k k' : Kvdb)
    → insert_unspents value out j names k ≡ ok k'
    → Keeps k k'
unfolding insert_unspents
insert_unspents-Keeps value out j [] k k' run = subst (Keeps k) (ok-injective run) (Keeps-refl k)
insert_unspents-Keeps value out j (name ∷ names) k k' run =
    let (k1, first, rest) =
      >>=-eq-ok (update_address (λ a. ok (insert_address_unspent value out j a)) name k) _ run in
    Keeps-trans k k1 k' (update_address-Keeps _ name k k1 (insert-SameTxs value out j) first)
      (insert_unspents-Keeps value out (suc j) names k1 k' rest)

pub insert_outputs-Keeps :
    (h : Hash) (n : ℕ) (outs : List CTxOut) (k k' : Kvdb)
    → insert_outputs h n outs k ≡ ok k'
    → Keeps k k'
unfolding insert_outputs
insert_outputs-Keeps h n [] k k' run = subst (Keeps k) (ok-injective run) (Keeps-refl k)
insert_outputs-Keeps h n (out ∷ outs) k k' run =
    let (k1, first, rest) =
      >>=-eq-ok (insert_unspents out.value (record { hash = h; position = n }) 0 out.addresses k) _
        run in
    Keeps-trans k k1 k' (insert_unspents-Keeps out.value _ 0 out.addresses k k1 first)
      (insert_outputs-Keeps h (suc n) outs k1 k' rest)

pub remove_unspent_outputs-Keeps :
    (vin : List TxOutputKey) (prev : List CTxOut) (k k' : Kvdb)
    → remove_unspent_outputs vin prev k ≡ ok k'
    → Keeps k k'
unfolding remove_unspent_outputs
remove_unspent_outputs-Keeps vin prev k k' run =
    for_each-Keeps remove_input
      (λ (i, out) k k' ran.
        for_each-Keeps _
          (λ name k k' went. update_address-Keeps _ name k k' (remove-SameTxs i) went) out.addresses
          k k' ran)
      (zip vin prev) k k' run

pub restore_inputs-Keeps :
    (vin : List TxOutputKey) (prev : List CTxOut) (k k' : Kvdb)
    → for_each restore_input (zip vin prev) k ≡ ok k'
    → Keeps k k'
unfolding address_at
restore_inputs-Keeps vin prev k k' run =
    for_each-Keeps restore_input
      (λ (i, out) k k' ran.
        let rest : Keeps (record k { tx_spends = erase i k.tx_spends }) k' =
          insert_unspents-Keeps out.value i 0 out.addresses _ k' ran in
        record { txs = rest.txs; objects = rest.objects; pool = rest.pool })
      (zip vin prev) k k' run

pub delete_outputs-Keeps :
    (h : Hash) (n : ℕ) (outs : List CTxOut) (k k' : Kvdb)
    → delete_outputs h n outs k ≡ ok k'
    → Keeps k k'
unfolding delete_outputs
delete_outputs-Keeps h n [] k k' run = subst (Keeps k) (ok-injective run) (Keeps-refl k)
delete_outputs-Keeps h n (out ∷ outs) k k' run =
    let (k1, first, rest) =
      >>=-eq-ok
        (for_each (update_address (delete_address_unspent (record { hash = h; position = n })))
          out.addresses k)
        _ run in
    Keeps-trans k k1 k'
      (for_each-Keeps _ (λ name k k' went. update_address-Keeps _ name k k' (delete-SameTxs _) went)
        out.addresses k k1 first)
      (delete_outputs-Keeps h (suc n) outs k1 k' rest)

pub insert_spend_txs-Keeps :
    (h : Hash) (n : ℕ) (vin : List TxOutputKey) (k : Kvdb) → Keeps k (insert_spend_txs h n vin k)
unfolding insert_spend_txs address_at
insert_spend_txs-Keeps h n [] k = Keeps-refl k
insert_spend_txs-Keeps h n (i ∷ vin) k =
    let rest =
      insert_spend_txs-Keeps h (suc n) vin
        (record k { tx_spends = set i (record { tx_hash = h; position = n }) k.tx_spends }) in
    record { txs = rest.txs; objects = rest.objects; pool = rest.pool }
