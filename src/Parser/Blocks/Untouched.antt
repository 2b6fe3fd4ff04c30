-- ===== src/Parser/Blocks/Untouched.antt =====
-- The handlers of blocks change the tables of blocks and leave transactions and addresses alone.
use explorer_kv.Prelude.{
  ℕ, Bool, true, false, not, List, [], ◌∷◌, ◌≡◌, refl, ◌∙◌, subst, inl, inr, List-cases,
  Option-cases, if◌then◌else◌,
}
use explorer_kv.Prelude.Int.{ℤ, pos, ltb_ℤ, ◌-ℤ◌}
use explorer_kv.Prelude.Result.{ok, assertion, guard, >>=-eq-ok, ok-injective}
use explorer_kv.Transaction.{Hash, TxOutputKey}
use explorer_kv.OrdMap.{find}
use explorer_kv.OrdMap.Order.{nat_ord, int_ord}
use explorer_kv.Parser.Address.{get}
use explorer_kv.Parser.Kvdb.{CTransaction, Kvdb, prev_tx_output, prev_outputs, get_prev_tx_outputs}
use explorer_kv.Parser.Balance.{get_tx_address_balance}
use explorer_kv.Parser.Txs.{TxLog2, Parser}
use explorer_kv.Parser.Blocks.{
  CBlock, set_next_block_hash, insert_block, insert_block_txs, accept_orphan, accept_block_kvdb,
  accept_block, reject_block_kvdb, reject_block, coinbase_value, remove_orphan_block_hash,
}

pub record Untouched (k k' : Kvdb) : Type 0 where
  pub objects : k'.tx_objects ≡ k.tx_objects
  pub pool : k'.unconfirmed_txs ≡ k.unconfirmed_txs
  pub addresses : k'.addresses ≡ k.addresses

pub Untouched-refl : (k : Kvdb) → Untouched k k
Untouched-refl k = record { objects = refl; pool = refl; addresses = refl }

set_next_block_hash-Untouched :
    (prev next : Hash) (k k' : Kvdb) → set_next_block_hash prev next k ≡ ok k' → Untouched k k'
unfolding set_next_block_hash
set_next_block_hash-Untouched prev next k k' run =
    let (b, at, left) = >>=-eq-ok (get (find prev k.block_objects)) _ run in
    subst (Untouched k) (ok-injective left)
      (record { objects = refl; pool = refl; addresses = refl })

-- the previous block is changed above the height 0 only
next_step-Untouched :
    (above : Bool) (prev next : Hash) (k k' : Kvdb)
    → (if above then set_next_block_hash prev next k else ok k) ≡ ok k'
    → Untouched k k'
next_step-Untouched true prev next k k' run = set_next_block_hash-Untouched prev next k k' run
next_step-Untouched false prev next k k' run =
    subst (Untouched k) (ok-injective run) (Untouched-refl k)

accept_orphan-Untouched :
    (h : Hash) (height : ℤ) (k : Kvdb) → Untouched k (accept_orphan h height k)
unfolding accept_orphan
accept_orphan-Untouched h height k = elim (Option-cases (find height k.block_orphans)) [
  | inl gone ↦ rw (gone, accept_orphan) (Untouched-refl k)
  | inr (value, at) ↦
      rw (at, accept_orphan)
        (elim (List-cases (remove_orphan_block_hash h value)) [
          | inl empty ↦ rw (empty) (record { objects = refl; pool = refl; addresses = refl })
          | inr (j, rest, more) ↦
              rw (more) (record { objects = refl; pool = refl; addresses = refl })
        ])
]

insert_block-Untouched :
    (get_block_value : ℤ → ℤ) (blk : CBlock) (height : ℤ) (time : ℕ) (k k' : Kvdb)
    → insert_block get_block_value blk height time k ≡ ok k'
    → Untouched k k'
unfolding insert_block
insert_block-Untouched get_block_value blk height time k k' run =
    let (value, one, run1) = >>=-eq-ok (coinbase_value blk.vtx) _ run in
    let (_, enough, run2) =
      >>=-eq-ok (guard (not (ltb_ℤ (value -ℤ get_block_value height) (pos 0))) assertion) _ run1 in
    let step = next_step-Untouched (ltb_ℤ (pos 0) height) blk.hash_prev_block blk.hash _ k' run2 in
    record { objects = step.objects; pool = step.pool; addresses = step.addresses }

pub accept_block-Untouched :
    (get_block_value : ℤ → ℤ) (log : TxLog2) (blk : CBlock) (p p' : Parser)
    → accept_block get_block_value log blk p ≡ ok p'
    → Untouched p.kvdb p'.kvdb
unfolding accept_block accept_block_kvdb insert_block_txs
accept_block-Untouched get_block_value log blk p p' run =
    let (k2, made, left) = >>=-eq-ok (accept_block_kvdb get_block_value log blk p.kvdb) _ run in
    let (k1, inserted, rest) =
      >>=-eq-ok (insert_block get_block_value blk log.blk_height log.max_blk_timestamp p.kvdb) _
        made in
    let first =
      insert_block-Untouched get_block_value blk log.blk_height log.max_blk_timestamp p.kvdb k1
        inserted in
    let second = accept_orphan-Untouched blk.hash log.blk_height (insert_block_txs blk k1) in
    subst (λ x. Untouched p.kvdb x.kvdb) (ok-injective left)
      (subst (Untouched p.kvdb) (ok-injective rest) (record {
        objects = second.objects ∙ first.objects;
        pool = second.pool ∙ first.pool;
        addresses = second.addresses ∙ first.addresses;
      }))

pub reject_block-Untouched :
    (log : TxLog2) (blk : CBlock) (p p' : Parser)
    → reject_block log blk p ≡ ok p'
    → Untouched p.kvdb p'.kvdb
unfolding reject_block reject_block_kvdb
reject_block-Untouched log blk p p' run =
    let (k1, made, left) = >>=-eq-ok (reject_block_kvdb log blk p.kvdb) _ run in
    let (b, at, rest) = >>=-eq-ok (get (find blk.hash p.kvdb.block_objects)) _ made in
    let step = next_step-Untouched (ltb_ℤ (pos 0) log.blk_height) blk.hash_prev_block 0 _ k1 rest in
    subst (λ x. Untouched p.kvdb x.kvdb) (ok-injective left)
      (record { objects = step.objects; pool = step.pool; addresses = step.addresses })

-- the balances of a transaction depend on the objects of transactions only
prev_outputs-Untouched :
    (vin : List TxOutputKey) (k k' : Kvdb)
    → k'.tx_objects ≡ k.tx_objects
    → prev_outputs k' vin ≡ prev_outputs k vin
unfolding prev_outputs prev_tx_output
prev_outputs-Untouched [] k k' same = refl
prev_outputs-Untouched (i ∷ vin) k k' same = rw (same, prev_outputs-Untouched vin k k' same) refl

pub get_tx_address_balance-Untouched :
    (tx : CTransaction) (k k' : Kvdb)
    → k'.tx_objects ≡ k.tx_objects
    → get_tx_address_balance k' tx ≡ get_tx_address_balance k tx
unfolding get_tx_address_balance get_prev_tx_outputs
get_tx_address_balance-Untouched tx k k' same = rw (prev_outputs-Untouched tx.vin k k' same) refl
