-- ===== src/Parser/Txs/Confirm.antt =====
-- jiexi/src/Parser.cc, confirmTx and unconfirmTx on the whole database.
use explorer_kv.Prelude.{
  Bool, true, false, Option, some, List, [], ◌∷◌, ◌≡◌, ◌≢◌, refl, sym, ap, ◌∙◌, subst, arith, ◌==◌,
  inl, inr, Bool-cases, Option-cases, if◌then◌else◌,
}
use explorer_kv.Prelude.Int.{ℤ, negsuc, ltb_ℤ, ◌-ℤ◌}
use explorer_kv.Prelude.Result.{Result, ok, err, ◌>>=◌, >>=-ok, >>=-eq-ok, ok-injective}
use explorer_kv.Transaction.{Hash}
use explorer_kv.TxLogs2.{Ledger, Status, LogType, after, is_unconfirmed}
use explorer_kv.OrdMap.{Map, find, has, set, erase, IsSorted}
use explorer_kv.OrdMap.Order.{nat_ord}
use explorer_kv.OrdMap.Laws.{find-set, find-erase}
use explorer_kv.Parser.Address.{get}
use explorer_kv.Parser.AddressTxs.Ledger.{Represents}
use explorer_kv.Parser.AddressTxs.Run.{confirm, unconfirm, restack, IsTop, handle_address_log}
use explorer_kv.Parser.Kvdb.{Name, Kvdb, TxObject, address_at, or_new, get_prev_tx_outputs}
use explorer_kv.Parser.Balance.{get_tx_address_balance, sum_values}
use explorer_kv.Parser.Txs.{
  TxLog2, Parser, add_unconfirmed_tx_pool, remove_unconfirmed_tx_pool, write_notification_logs,
  confirmed_fee, confirm_object, confirm_tx_kvdb, confirm_tx, unconfirm_tx_kvdb, unconfirm_tx,
}
use explorer_kv.Parser.Txs.Addresses.{address_balance-IsSorted}
use explorer_kv.Parser.Txs.Amounts.{IsMoney, get_value_out-IsMoney}
use explorer_kv.Parser.Txs.World.{World, Stacks, seen_by, moved, visit-Represents}

pub write_notification_logs-kvdb :
    (m : Map Name ℤ) (log : TxLog2) (p : Parser) → (write_notification_logs m log p).kvdb ≡ p.kvdb
unfolding write_notification_logs
write_notification_logs-kvdb m log p = ground arith

get_tx_address_balance-IsSorted :
    (k : Kvdb) (log : TxLog2) (balance : Map Name ℤ)
    → get_tx_address_balance k log.tx ≡ ok balance
    → IsSorted balance
unfolding get_tx_address_balance
get_tx_address_balance-IsSorted k log balance run =
    let (prev, read, made) = >>=-eq-ok (get_prev_tx_outputs k log.tx) _ run in
    subst IsSorted (ok-injective made) (address_balance-IsSorted prev log.tx)

-- a transaction that is not absent has its object
object_of :
    (touches : Name → Hash → Bool) (stacks : Stacks) (s : Ledger) (k : Kvdb)
    → World touches stacks s k
    → (h : Hash) → s h ≢ Status.absent
    → (t : TxObject) × (find h k.tx_objects ≡ some t)
object_of touches stacks s k world h there = elim (Option-cases (find h k.tx_objects)) [
  | inl gone ↦ let no : ⊥ = ground (arith, gone, world.objects h there) in elim no [ ]
  | inr found ↦ found
]

pool_removed :
    (s : Ledger) (h : Hash) (m m' : Map Hash ℤ)
    → m' ≡ m
    → ((j : Hash) → has j m ≡ is_unconfirmed (s j))
    → (j : Hash) → has j (erase h m') ≡ is_unconfirmed (after s LogType.confirm h j)
pool_removed s h m m' same pool j =
    ap (λ x. has j (erase h x)) same ∙ ground (arith, find-erase h j m, pool j)

pool_added :
    (s : Ledger) (h : Hash) (fee : ℤ) (m m' : Map Hash ℤ)
    → m' ≡ m
    → ((j : Hash) → has j m ≡ is_unconfirmed (s j))
    → (j : Hash) → has j (set h fee m') ≡ is_unconfirmed (after s LogType.unconfirm h j)
pool_added s h fee m m' same pool j =
    ap (λ x. has j (set h fee x)) same ∙ ground (arith, find-set h j fee m, pool j)

-- the stack without its top
abbrev pub below : List Hash → List Hash
below [] = []
below (_ ∷ stack) = stack

restack-below : (h : Hash) (stack : List Hash) → restack (unconfirm h) stack ≡ below stack
restack-below h [] = refl
restack-below h (_ ∷ stack) = refl

-- a fee that is computed between two parts of a run
fee_then :
    {A B : Type 0} (r : Result ℤ) (f : ℤ → A) (g : A → B)
    → ((r >>= λ fee. ok (f fee)) >>= λ x. ok (g x)) ≡ (r >>= λ fee. ok (g (f fee)))
fee_then (err stop) f g = refl
fee_then (ok fee) f g = refl

-- the fee of amounts of money
abbrev fee_of : (ℤ → ℤ) → TxLog2 → TxObject → ℤ
fee_of get_block_value log t =
    if log.tx.is_coinbase then sum_values log.tx.vout -ℤ get_block_value log.blk_height else t.fee

confirmed_fee-IsMoney :
    (get_block_value : ℤ → ℤ) (log : TxLog2) (t : TxObject)
    → IsMoney log.tx.vout
    → confirmed_fee get_block_value log t ≡ ok (fee_of get_block_value log t)
unfolding confirmed_fee
confirmed_fee-IsMoney get_block_value log t money = elim (Bool-cases log.tx.is_coinbase) [
  | inl coinbase ↦ rw coinbase (>>=-ok (get_value_out-IsMoney log.tx.vout money) _)
  | inr regular ↦ rw regular refl
]

-- the database after the object of a transaction was rewritten, and the list of the unconfirmed ones
module _ (touches : Name → Hash → Bool) (stacks stacks' : Stacks) (s s' : Ledger) (k k' : Kvdb)
    (world : World touches stacks s k) (same : k' ≡ record k { addresses = k'.addresses })
    (seen : (name : Name)
      → Represents (stacks' name) (seen_by touches name s') (address_at name k'))
    (h : Hash) (u : TxObject) (done : Kvdb) where
  same_objects : k'.tx_objects ≡ k.tx_objects
  same_objects = ap (λ x. x.tx_objects) same

  same_pool : k'.unconfirmed_txs ≡ k.unconfirmed_txs
  same_pool = ap (λ x. x.unconfirmed_txs) same

  pub rebuilt :
      done.addresses ≡ k'.addresses
      → done.tx_objects ≡ set h u k'.tx_objects
      → ((j : Hash) → (h == j) ≡ false → s' j ≡ s j)
      → ((j : Hash) → has j done.unconfirmed_txs ≡ is_unconfirmed (s' j))
      → World touches stacks' s' done
  unfolding address_at
  rebuilt addresses objects elsewhere pool = record {
    at = λ name.
        subst (λ x. Represents (stacks' name) (seen_by touches name s') (or_new (find name x)))
          (sym addresses) (seen name);
    objects = λ j there. elim (Bool-cases (h == j)) [
      | inl here ↦ ap (has j) objects ∙ ground (arith, here, find-set h j u k'.tx_objects)
      | inr other ↦
          ap (has j) (objects ∙ ap (set h u) same_objects)
          ∙ ground (
            arith,
            other,
            find-set h j u k.tx_objects,
            world.objects j (λ gone. there (elsewhere j other ∙ gone)),
          )
    ];
    pool = pool;
  }

module _ (touches : Name → Hash → Bool) (printed : Hash → Option Hash)
    (own : (h j : Hash) → printed h ≡ some j → j ≡ h) (get_block_value : ℤ → ℤ) (stacks : Stacks)
    (s : Ledger) (p : Parser) (log : TxLog2) (world : World touches stacks s p.kvdb)
    (balance : Map Name ℤ) (read : get_tx_address_balance p.kvdb log.tx ≡ ok balance)
    (agrees : (name : Name) → has name balance ≡ touches name log.tx_hash) where
  -- what `confirmTx` leaves, for the fee that it stores with the object `t`
  pub record Mined (t : TxObject) (fee : ℤ) (p' : Parser) : Type 0 where
    pub world_after :
        World touches
          (moved touches (λ stack. log.tx_hash ∷ stack) log.tx_hash stacks)
          (after s LogType.confirm log.tx_hash)
          p'.kvdb
    pub object :
        find log.tx_hash p'.kvdb.tx_objects ≡ some (confirm_object get_block_value log fee t)

  -- `confirmTx` fails at the fee or nowhere
  pub confirm_tx-Mined :
      s log.tx_hash ≡ Status.unconfirmed
      → ltb_ℤ (negsuc 0) log.blk_height ≡ true
      → (t : TxObject) × (done : ℤ → Parser) × ((find log.tx_hash p.kvdb.tx_objects ≡ some t)
          × (confirm_tx get_block_value log p
              ≡ (confirmed_fee get_block_value log t >>= λ fee. ok (done fee)))
          × ((fee : ℤ) → Mined t fee (done fee)))
  unfolding confirm_tx confirm_tx_kvdb handle_address_log remove_unconfirmed_tx_pool
  confirm_tx-Mined waits mined =
      let (k', ran, same, seen) =
        visit-Represents touches printed own
          (λ v. confirm log.tx_hash log.max_blk_timestamp log.blk_height) LogType.confirm
          log.tx_hash (λ stack. log.tx_hash ∷ stack) (λ v. refl) (λ v. refl) (λ v stack. refl)
          stacks s p.kvdb world.at balance (get_tx_address_balance-IsSorted p.kvdb log balance read)
          agrees waits (λ name v at. mined) in
      let (t, at) =
        object_of touches stacks s p.kvdb world log.tx_hash
          (λ gone. (let no : ⊥ = ground (arith, waits, gone) in no)) in
      let at' : find log.tx_hash k'.tx_objects ≡ some t =
        ap (λ x. find log.tx_hash x.tx_objects) same ∙ at in
      let stored : ℤ → Kvdb = λ fee. record k' {
        tx_objects = set log.tx_hash (confirm_object get_block_value log fee t) k'.tx_objects;
        unconfirmed_txs = erase log.tx_hash k'.unconfirmed_txs;
      } in
      let counted : Kvdb → Parser = λ x. remove_unconfirmed_tx_pool log (record p { kvdb = x }) in
      let settle : Kvdb → Parser = λ x. write_notification_logs balance log (counted x) in
      let inner : confirm_tx_kvdb get_block_value log balance p.kvdb
          ≡ (confirmed_fee get_block_value log t >>= λ fee. ok (stored fee)) =
        >>=-ok ran _ ∙ >>=-ok (ap get at') _ in
      (
        t,
        λ fee. settle (stored fee),
        (
          at,
          >>=-ok read _
              ∙ ap (λ r. r >>= λ x. ok (settle x)) inner
              ∙ fee_then (confirmed_fee get_block_value log t) stored settle,
          λ fee.
              (let kept : (settle (stored fee)).kvdb ≡ (counted (stored fee)).kvdb =
                  write_notification_logs-kvdb balance log (counted (stored fee)) in
                record {
                  world_after =
                      subst (World touches _ (after s LogType.confirm log.tx_hash)) (sym kept) (
                        rebuilt touches stacks _ s _ p.kvdb k' world same seen log.tx_hash
                          (confirm_object get_block_value log fee t) (counted (stored fee)).kvdb
                          refl refl (λ j other. rw (other) refl)
                          (pool_removed s log.tx_hash p.kvdb.unconfirmed_txs k'.unconfirmed_txs
                            (ap (λ x. x.unconfirmed_txs) same) world.pool));
                  object =
                      ap (λ x. find log.tx_hash x.tx_objects) kept
                      ∙ ground (
                        arith,
                        find-set log.tx_hash log.tx_hash (confirm_object get_block_value log fee t)
                            k'.tx_objects,
                      );
                }),
        ),
      )

  -- where `confirmTx` returns
  pub confirm_tx-World_returned :
      s log.tx_hash ≡ Status.unconfirmed
      → ltb_ℤ (negsuc 0) log.blk_height ≡ true
      → (p' : Parser) → confirm_tx get_block_value log p ≡ ok p'
      → World touches
          (moved touches (λ stack. log.tx_hash ∷ stack) log.tx_hash stacks)
          (after s LogType.confirm log.tx_hash)
          p'.kvdb
  confirm_tx-World_returned waits mined p' returned =
      let (t, done, (at, run, all)) = confirm_tx-Mined waits mined in
      let (fee, found, left) =
        >>=-eq-ok (confirmed_fee get_block_value log t) (λ fee. ok (done fee))
          (sym run ∙ returned) in
      subst
        (λ x.
          World touches (moved touches (λ stack. log.tx_hash ∷ stack) log.tx_hash stacks)
            (after s LogType.confirm log.tx_hash) x.kvdb)
        (ok-injective left) (all fee).world_after

  -- In a database that agrees with the log, confirming an unconfirmed transaction at the height
  -- of a block returns, when the outputs that it spends can be read, its balances are at the
  -- addresses that it touches, and its outputs and their sum are amounts of money: the database
  -- agrees with the log and the new entry, which puts the transaction on the stack of each
  -- address that it touches, and the object of the transaction is rewritten with its height,
  -- its time and, for a coinbase, the sum of the outputs less the value of the block as its
  -- fee.
  pub confirm_tx-World :
      s log.tx_hash ≡ Status.unconfirmed
      → ltb_ℤ (negsuc 0) log.blk_height ≡ true
      → IsMoney log.tx.vout
      → (p' : Parser) × (confirm_tx get_block_value log p ≡ ok p')
        × World touches
            (moved touches (λ stack. log.tx_hash ∷ stack) log.tx_hash stacks)
            (after s LogType.confirm log.tx_hash)
            p'.kvdb
        × ((t : TxObject) × (find log.tx_hash p.kvdb.tx_objects ≡ some t)
            × (find log.tx_hash p'.kvdb.tx_objects
                ≡ some (
                    confirm_object get_block_value log
                      (if log.tx.is_coinbase
                        then sum_values log.tx.vout -ℤ get_block_value log.blk_height
                        else t.fee)
                      t)))
  confirm_tx-World waits mined money =
      let (t, done, (at, run, all)) = confirm_tx-Mined waits mined in
      let m = all (fee_of get_block_value log t) in
      (
        done (fee_of get_block_value log t),
        run ∙ >>=-ok (confirmed_fee-IsMoney get_block_value log t money) _,
        m.world_after,
        (t, at, m.object),
      )

  -- In a database that agrees with the log, unconfirming a transaction that each address it
  -- touches confirmed last returns, when the outputs that it spends can be read and its
  -- balances are at the addresses that it touches, and the database agrees with the log and the
  -- new entry, which takes it off those stacks.
  pub unconfirm_tx-World :
      s log.tx_hash ≡ Status.confirmed
      → ((name : Name) → touches name log.tx_hash ≡ true → IsTop log.tx_hash (stacks name))
      → (p' : Parser) × (unconfirm_tx log p ≡ ok p')
        × World touches
            (moved touches below log.tx_hash stacks)
            (after s LogType.unconfirm log.tx_hash)
            p'.kvdb
  unfolding unconfirm_tx unconfirm_tx_kvdb handle_address_log add_unconfirmed_tx_pool
  unconfirm_tx-World settled last =
      let (k', ran, same, seen) =
        visit-Represents touches printed own (λ v. unconfirm log.tx_hash) LogType.unconfirm
          log.tx_hash below (λ v. refl) (λ v. refl) (λ v stack. restack-below log.tx_hash stack)
          stacks s p.kvdb world.at balance (get_tx_address_balance-IsSorted p.kvdb log balance read)
          agrees settled (λ name v at. last name (sym (agrees name) ∙ rw (at) refl)) in
      let (t, at) =
        object_of touches stacks s p.kvdb world log.tx_hash
          (λ gone. (let no : ⊥ = ground (arith, settled, gone) in no)) in
      let at' : find log.tx_hash k'.tx_objects ≡ some t =
        ap (λ x. find log.tx_hash x.tx_objects) same ∙ at in
      let u : TxObject = record t { block_time = 0; block_height = negsuc 0 } in
      let k'' : Kvdb = record k' {
        tx_objects = set log.tx_hash u k'.tx_objects;
        unconfirmed_txs = set log.tx_hash t.fee k'.unconfirmed_txs;
      } in
      let p1 : Parser = add_unconfirmed_tx_pool log (record p { kvdb = k'' }) in
      let p2 : Parser = write_notification_logs balance log p1 in
      let stored : p2.kvdb ≡ p1.kvdb = write_notification_logs-kvdb balance log p1 in
      (
        p2,
        >>=-ok read _ ∙ >>=-ok (>>=-ok ran _ ∙ >>=-ok (ap get at') _) _,
        subst (World touches _ (after s LogType.unconfirm log.tx_hash)) (sym stored) (
            rebuilt touches stacks _ s _ p.kvdb k' world same seen log.tx_hash u p1.kvdb refl refl
              (λ j other. rw (other) refl)
              (pool_added s log.tx_hash t.fee p.kvdb.unconfirmed_txs k'.unconfirmed_txs
                (ap (λ x. x.unconfirmed_txs) same) world.pool)),
      )
