-- ===== src/Parser/Handle/World.antt =====
-- jiexi/src/Parser.cc, threadHandleTxlogs: an entry of the log, whatever its type, against the database.
use explorer_kv.Prelude.{
  Bool, true, false, Option, some, List, ◌∷◌, ◌≡◌, sym, ap, ◌∙◌, subst, if◌then◌else◌,
}
use explorer_kv.Prelude.Int.{ℤ, negsuc, ltb_ℤ}
use explorer_kv.Prelude.Result.{Result, ok, ◌>>=◌, >>=-eq-ok, ok-injective}
use explorer_kv.Transaction.{Hash}
use explorer_kv.TxLogs2.{Ledger, LogType, after, from}
use explorer_kv.OrdMap.{Map, find, has}
use explorer_kv.OrdMap.Order.{nat_ord}
use explorer_kv.Parser.AddressTxs.Ledger.{Represents}
use explorer_kv.Parser.AddressTxs.Run.{IsTop}
use explorer_kv.Parser.Kvdb.{Name, Kvdb, CTxOut, address_at, or_new, get_prev_tx_outputs}
use explorer_kv.Parser.Balance.{address_balance, get_tx_address_balance}
use explorer_kv.Parser.Txs.{TxLog2, Parser}
use explorer_kv.Parser.Txs.World.{World, Stacks, seen_by, moved}
use explorer_kv.Parser.Txs.Confirm.{below, confirm_tx-World_returned, unconfirm_tx-World}
use explorer_kv.Parser.Txs.Accept.{accept_tx-World, reject_tx-World}
use explorer_kv.Parser.Blocks.{CBlock, accept_block, reject_block}
use explorer_kv.Parser.Blocks.Untouched.{
  Untouched, Untouched-refl, accept_block-Untouched, reject_block-Untouched,
  get_tx_address_balance-Untouched,
}
use explorer_kv.Parser.Handle.{handle_as, handle_txlog}

-- the stack of an address that the transaction touches, after an entry of the log
abbrev pub move_of : LogType → Hash → List Hash → List Hash
move_of LogType.accept h stack = stack
move_of LogType.confirm h stack = h ∷ stack
move_of LogType.unconfirm h stack = below stack
move_of LogType.reject h stack = stack

-- An entry confirms at the height of a block, and unconfirms what each address confirmed last.
abbrev pub InTurn : LogType → (Name → Hash → Bool) → TxLog2 → Stacks → Type 0
InTurn LogType.accept touches log stacks = Unit
InTurn LogType.confirm touches log stacks = ltb_ℤ (negsuc 0) log.blk_height ≡ true
InTurn LogType.unconfirm touches log stacks =
    (name : Name) → touches name log.tx_hash ≡ true → IsTop log.tx_hash (stacks name)
InTurn LogType.reject touches log stacks = Unit

untouched-World :
    (touches : Name → Hash → Bool) (stacks : Stacks) (s : Ledger) (k k' : Kvdb)
    → Untouched k k'
    → World touches stacks s k
    → World touches stacks s k'
unfolding address_at
untouched-World touches stacks s k k' u w = record {
  at = λ name.
      subst (λ x. Represents (stacks name) (seen_by touches name s) (or_new (find name x)))
        (sym u.addresses) (w.at name);
  objects = λ h there. ap (has h) u.objects ∙ w.objects h there;
  pool = λ h. ap (has h) u.pool ∙ w.pool h;
}

module _ (touches : Name → Hash → Bool) (printed : Hash → Option Hash)
    (own : (h j : Hash) → printed h ≡ some j → j ≡ h) (get_block_value : ℤ → ℤ)
    (block_of : TxLog2 → Result CBlock) (stacks : Stacks) (s : Ledger) (log : TxLog2)
    (balance : Map Name ℤ)
    (agrees : (name : Name) → has name balance ≡ touches name log.tx_hash) where
  -- the handler of a block that comes before that of its coinbase
  block_step :
      (coinbase : Bool) (handle : CBlock → Parser → Result Parser) (p p' : Parser)
      → ((blk : CBlock) (p p' : Parser) → handle blk p ≡ ok p' → Untouched p.kvdb p'.kvdb)
      → (if coinbase then (block_of log >>= λ blk. handle blk p) else ok p) ≡ ok p'
      → Untouched p.kvdb p'.kvdb
  block_step true handle p p' keeps run =
      let (blk, read, ran) = >>=-eq-ok (block_of log) _ run in keeps blk p p' ran
  block_step false handle p p' keeps run =
      subst (λ x. Untouched p.kvdb x.kvdb) (ok-injective run) (Untouched-refl p.kvdb)

  -- the outputs that the transaction spends, as its balance reads them
  read_prev :
      (k : Kvdb)
      → get_tx_address_balance k log.tx ≡ ok balance
      → (prev : List CTxOut) × (get_prev_tx_outputs k log.tx ≡ ok prev)
        × (address_balance prev log.tx ≡ balance)
  unfolding get_tx_address_balance
  read_prev k read =
      let (prev, there, made) = >>=-eq-ok (get_prev_tx_outputs k log.tx) _ read in
      (prev, there, ok-injective made)

  handle_as-World :
      (type : LogType) (p p' : Parser)
      → World touches stacks s p.kvdb
      → get_tx_address_balance p.kvdb log.tx ≡ ok balance
      → s log.tx_hash ≡ from type
      → InTurn type touches log stacks
      → handle_as printed get_block_value block_of type log p ≡ ok p'
      → World touches
          (moved touches (move_of type log.tx_hash) log.tx_hash stacks)
          (after s type log.tx_hash)
          p'.kvdb
  unfolding handle_as
  handle_as-World LogType.accept p p' world read start turn run =
      let (prev, there, same) = read_prev p.kvdb read in
      accept_tx-World touches printed own stacks s p p' log world prev there
        (λ name. ap (has name) same ∙ agrees name) start run
  handle_as-World LogType.confirm p p' world read start turn run =
      let (p1, stepped, confirmed) =
        >>=-eq-ok
          (if log.tx.is_coinbase
            then (block_of log >>= λ blk. accept_block get_block_value log blk p)
            else ok p)
          _ run in
      let u =
        block_step log.tx.is_coinbase (accept_block get_block_value log) p p1
          (λ blk p p'. accept_block-Untouched get_block_value log blk p p') stepped in
      confirm_tx-World_returned touches printed own get_block_value stacks s p1 log
        (untouched-World touches stacks s p.kvdb p1.kvdb u world) balance
        (get_tx_address_balance-Untouched log.tx p.kvdb p1.kvdb u.objects ∙ read) agrees start turn
        p' confirmed
  handle_as-World LogType.unconfirm p p' world read start turn run =
      let (p2, ran, after_it) =
        unconfirm_tx-World touches printed own get_block_value stacks s p log world balance read
          agrees start turn in
      subst
        (λ x.
          World touches (moved touches (move_of LogType.unconfirm log.tx_hash) log.tx_hash stacks)
            (after s LogType.unconfirm log.tx_hash) x.kvdb)
        (ok-injective (sym ran ∙ run)) after_it
  handle_as-World LogType.reject p p' world read start turn run =
      let (p1, stepped, rejected) =
        >>=-eq-ok
          (if log.tx.is_coinbase then (block_of log >>= λ blk. reject_block log blk p) else ok p) _
          run in
      let u =
        block_step log.tx.is_coinbase (reject_block log) p p1
          (λ blk p p'. reject_block-Untouched log blk p p') stepped in
      let (prev, there, same) =
        read_prev p1.kvdb
          (get_tx_address_balance-Untouched log.tx p.kvdb p1.kvdb u.objects ∙ read) in
      reject_tx-World touches printed own stacks s p1 p' log
        (untouched-World touches stacks s p.kvdb p1.kvdb u world) prev there
        (λ name. ap (has name) same ∙ agrees name) start rejected

  -- From a database that agrees with the log, handling an entry of any type, with the handler
  -- of a block before that of a coinbase, where it returns, leaves a database that agrees with
  -- the log and the entry: when the entry starts from the status that it needs, confirms at the
  -- height of a block or unconfirms what each address confirmed last, and the balances of its
  -- transaction can be read and are at the addresses that it touches. The text that formats a
  -- hash as a key names no other hash.
  pub handle_txlog-World :
      (p p' : Parser)
      → World touches stacks s p.kvdb
      → get_tx_address_balance p.kvdb log.tx ≡ ok balance
      → s log.tx_hash ≡ from log.type
      → InTurn log.type touches log stacks
      → handle_txlog printed get_block_value block_of log p ≡ ok p'
      → World touches
          (moved touches (move_of log.type log.tx_hash) log.tx_hash stacks)
          (after s log.type log.tx_hash)
          p'.kvdb
  unfolding handle_txlog
  handle_txlog-World = handle_as-World log.type
