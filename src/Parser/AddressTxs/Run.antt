-- ===== src/Parser/AddressTxs/Run.antt =====
-- The entries of the log that concern one address, one after the other.
use explorer_kv.Prelude.{
  ℕ, suc, ◌-◌, List, [], ◌∷◌, Option, some, true, ◌≡◌, refl, sym, subst, length, arith, ◌∙◌,
}
use explorer_kv.Prelude.Int.{ℤ, negsuc, ltb_ℤ}
use explorer_kv.Prelude.Result.{Result, ok, ◌>>=◌, >>=-ok, ok-injective}
use explorer_kv.Transaction.{Hash}
use explorer_kv.TxLogs2.{Ledger, Status, LogType, after, from}
use explorer_kv.OrdMap.{find}
use explorer_kv.OrdMap.Order.{nat_ord}
use explorer_kv.Parser.Address.{Address, new_address, init}
use explorer_kv.Parser.AddressTxs.{
  insert_address_tx, confirm_address_tx, unconfirm_address_tx, reject_address_tx,
}
use explorer_kv.Parser.AddressTxs.Invariant.{new_address-IsChain}
use explorer_kv.Parser.AddressTxs.Leftover.{stay, insert_idxs}
use explorer_kv.Parser.AddressTxs.Confirm.{confirm_address_tx-Confirmed}
use explorer_kv.Parser.AddressTxs.Unconfirm.{unconfirm_address_tx-Unconfirmed}
use explorer_kv.Parser.AddressTxs.Reject.{reject_address_tx-Rejected}
use explorer_kv.Parser.AddressTxs.Ledger.{Represents, Leftover, unconfirmed-StandsAt}
use explorer_kv.Parser.AddressTxs.Steps.{accept-Represents, confirm-Represents}
use explorer_kv.Parser.AddressTxs.StepsBack.{unconfirm-Represents, reject-Represents}

-- What an entry of the log says of one address: the transaction, the time that the entry bears, the
-- balance that the transaction moves at the address, the height of its block.
pub data AddressLog : Type 0 where
  accept : Hash → ℕ → ℤ → AddressLog
  confirm : Hash → ℕ → ℤ → AddressLog
  unconfirm : Hash → AddressLog
  reject : Hash → AddressLog

abbrev pub type_of : AddressLog → LogType
type_of (accept h time diff) = LogType.accept
type_of (confirm h time height) = LogType.confirm
type_of (unconfirm h) = LogType.unconfirm
type_of (reject h) = LogType.reject

abbrev pub hash_of : AddressLog → Hash
hash_of (accept h time diff) = h
hash_of (confirm h time height) = h
hash_of (unconfirm h) = h
hash_of (reject h) = h

-- the stack of the confirmed transactions after an entry
abbrev pub restack : AddressLog → List Hash → List Hash
restack (accept h time diff) stack = stack
restack (confirm h time height) stack = h ∷ stack
restack (unconfirm h) [] = []
restack (unconfirm h) (_ ∷ stack) = stack
restack (reject h) stack = stack

abbrev pub IsTop : Hash → List Hash → Type 0
IsTop h [] = ⊥
IsTop h (top ∷ below) = top ≡ h

-- An entry confirms at the height of a block, and takes back the transaction that was confirmed last.
abbrev pub InOrder : AddressLog → List Hash → Type 0
InOrder (accept h time diff) stack = Unit
InOrder (confirm h time height) stack = ltb_ℤ (negsuc 0) height ≡ true
InOrder (unconfirm h) stack = IsTop h stack
InOrder (reject h) stack = Unit

-- Each entry finds its transaction in the status that it starts from, and is in order.
abbrev pub IsLegalFor : List Hash → Ledger → List AddressLog → Type 0
IsLegalFor stack s [] = Unit
IsLegalFor stack s (e ∷ logs) =
    (s (hash_of e) ≡ from (type_of e))
    × InOrder e stack
    × IsLegalFor (restack e stack) (after s (type_of e) (hash_of e)) logs

abbrev pub stack_after : List Hash → List AddressLog → List Hash
stack_after stack [] = stack
stack_after stack (e ∷ logs) = stack_after (restack e stack) logs

abbrev pub ledger_after : Ledger → List AddressLog → Ledger
ledger_after s [] = s
ledger_after s (e ∷ logs) = ledger_after (after s (type_of e) (hash_of e)) logs

module _ (printed : Hash → Option Hash) where
  -- what the loops over the addresses do with one address
  unfoldable pub handle_address_log : AddressLog → Address → Result Address
  handle_address_log (accept h time diff) a = ok (insert_address_tx h time diff a)
  handle_address_log (confirm h time height) a = confirm_address_tx h time height a
  handle_address_log (unconfirm h) a = unconfirm_address_tx h a
  handle_address_log (reject h) a = reject_address_tx printed h a

  unfoldable pub handle_address_logs : List AddressLog → Address → Result Address
  handle_address_logs [] a = ok a
  handle_address_logs (e ∷ logs) a = handle_address_log e a >>= handle_address_logs logs

  module _ (own : (h j : Hash) → printed h ≡ some j → j ≡ h) where
    pub handle_address_log-Represents :
        (e : AddressLog) (stack : List Hash) (s : Ledger) (a : Address)
        → Represents stack s a
        → s (hash_of e) ≡ from (type_of e)
        → InOrder e stack
        → (b : Address) × (handle_address_log e a ≡ ok b)
          × Represents (restack e stack) (after s (type_of e) (hash_of e)) b
    unfolding handle_address_log
    handle_address_log-Represents (accept h time diff) stack s a r start order =
        (_, refl, accept-Represents stack s a r h time diff start)
    handle_address_log-Represents (confirm h time height) stack s a r start order =
        let (k, t, stands, past) = unconfirmed-StandsAt stack s a r h start in
        let (b, made) =
          confirm_address_tx-Confirmed a r.chain h k t time height stands past order in
        (b, made.run, confirm-Represents stack s a r h k t stands past time height b made)
    handle_address_log-Represents (unconfirm h) [] s a r start order = elim order [ ]
    handle_address_log-Represents (unconfirm h) (top ∷ below) s a r start order =
        let kept : Represents (h ∷ below) s a = subst (λ x. Represents (x ∷ below) s a) order r in
        let (t, at, named) = kept.stacked.0 in
        let (b, undone) =
          unconfirm_address_tx-Unconfirmed a r.chain h (length below) t (at, named) (sym r.size) in
        (b, undone.run, unconfirm-Represents below s h a kept t (at, named) b undone)
    handle_address_log-Represents (reject h) stack s a r start order =
        let (k, t, stands, past) = unconfirmed-StandsAt stack s a r h start in
        let last : a.info.tx_count ≡ suc (a.info.tx_count - 1) =
          omega (arith, r.chain.listed.inside k t stands.0) in
        let (b, gone) =
          reject_address_tx-Rejected printed a r.chain h (own h) k (a.info.tx_count - 1) t stands
            past last in
        (b, gone.run, reject-Represents stack s a r h printed k _ t stands past last b gone)

    handle_address_log-Leftover :
        (e : AddressLog) (stack : List Hash) (s : Ledger) (a b : Address)
        → Represents stack s a
        → s (hash_of e) ≡ from (type_of e)
        → InOrder e stack
        → Leftover printed s a
        → handle_address_log e a ≡ ok b
        → Leftover printed (after s (type_of e) (hash_of e)) b
    unfolding handle_address_log
    handle_address_log-Leftover (accept h time diff) stack s a b r start order old ran =
        subst (Leftover printed (after s LogType.accept h)) (ok-injective ran) (
          stay printed stack s LogType.accept h a (insert_address_tx h time diff a) r old
            (λ x other fresh. insert_idxs h time diff a x other)
            (λ i gone at. (let no : ⊥ = ground (arith, gone) in elim no [ ])))
    handle_address_log-Leftover (confirm h time height) stack s a b r start order old ran =
        let (k, t, stands, past) = unconfirmed-StandsAt stack s a r h start in
        let (c, made) =
          confirm_address_tx-Confirmed a r.chain h k t time height stands past order in
        subst (Leftover printed (after s LogType.confirm h)) (ok-injective (sym made.run ∙ ran)) (
          stay printed stack s LogType.confirm h a c r old (λ x other. made.idxs x)
            (λ i gone at. (let no : ⊥ = ground (arith, gone) in elim no [ ])))
    handle_address_log-Leftover (unconfirm h) [] s a b r start order old ran = elim order [ ]
    handle_address_log-Leftover (unconfirm h) (top ∷ below) s a b r start order old ran =
        let kept : Represents (h ∷ below) s a = subst (λ x. Represents (x ∷ below) s a) order r in
        let (t, at, named) = kept.stacked.0 in
        let (c, undone) =
          unconfirm_address_tx-Unconfirmed a r.chain h (length below) t (at, named) (sym r.size) in
        subst (Leftover printed (after s LogType.unconfirm h)) (ok-injective (sym undone.run ∙ ran))
          (stay printed (top ∷ below) s LogType.unconfirm h a c r old (λ x other. undone.idxs x)
            (λ i gone at. (let no : ⊥ = ground (arith, gone) in elim no [ ])))
    handle_address_log-Leftover (reject h) stack s a b r start order old ran =
        let (k, t, stands, past) = unconfirmed-StandsAt stack s a r h start in
        let last : a.info.tx_count ≡ suc (a.info.tx_count - 1) =
          omega (arith, r.chain.listed.inside k t stands.0) in
        let (c, gone) =
          reject_address_tx-Rejected printed a r.chain h (own h) k (a.info.tx_count - 1) t stands
            past last in
        subst (Leftover printed (after s LogType.reject h)) (ok-injective (sym gone.run ∙ ran)) (
          stay printed stack s LogType.reject h a c r old (λ x other. gone.idxs x)
            (λ i absent. gone.left i))

    -- From an address that represents a stack of confirmed transactions and a status of each
    -- transaction, and whose index of hashes leads from an absent transaction only where the
    -- key of that transaction does not spell its hash, every list of log entries of which each
    -- starts from the status that it needs, confirms at the height of a block, and unconfirms
    -- only the transaction confirmed last, is handled without an error, and the address
    -- represents the stack and the statuses that the entries lead to: its counters are the sums
    -- over its chain, the confirmed ones come first, in their order, and the index leads from
    -- each transaction of the chain to its entry, and from an absent one again only in that
    -- case. The key, which formats the uint256 itself, names no other hash.
    pub handle_address_logs-Represents :
        (logs : List AddressLog) (stack : List Hash) (s : Ledger) (a : Address)
        → Represents stack s a
        → Leftover printed s a
        → IsLegalFor stack s logs
        → (b : Address) × (handle_address_logs logs a ≡ ok b)
          × Represents (stack_after stack logs) (ledger_after s logs) b
          × Leftover printed (ledger_after s logs) b
    unfolding handle_address_logs
    handle_address_logs-Represents [] stack s a r old legal = (a, refl, r, old)
    handle_address_logs-Represents (e ∷ logs) stack s a r old (start, order, legal) =
        let (b, ran, r') = handle_address_log-Represents e stack s a r start order in
        let old' = handle_address_log-Leftover e stack s a b r start order old ran in
        let (c, rest, r'', old'') =
          handle_address_logs-Represents logs (restack e stack) (after s (type_of e) (hash_of e)) b
            r' old' legal in
        (c, >>=-ok ran _ ∙ rest, r'', old'')

-- an address of which the log has said nothing
pub new_address-Represents : Represents [] (λ h. Status.absent) new_address
unfolding new_address init find
new_address-Represents = record {
  chain = new_address-IsChain;
  size = refl;
  stacked = tt;
  status = λ k t at. ground arith;
  found = λ h there. (let no : ⊥ = there refl in elim no [ ]);
}

pub new_address-Leftover :
    (printed : Hash → Option Hash) → Leftover printed (λ h. Status.absent) new_address
unfolding new_address init find
new_address-Leftover printed x i gone at = cc
