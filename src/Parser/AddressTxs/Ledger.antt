-- ===== src/Parser/AddressTxs/Ledger.antt =====
-- The chain of an address against what the log says of its transactions: the confirmed ones as a stack,
-- whose top is the last one confirmed, and the status of every transaction.
use explorer_kv.Prelude.{
  ℕ, ◌<◌, ◌≤◌, List, [], ◌∷◌, Option, none, some, ◌≡◌, ◌≢◌, ap, ◌∙◌, arith, ltb, if◌then◌else◌,
  length,
}
use explorer_kv.Transaction.{Hash}
use explorer_kv.TxLogs2.{Ledger, Status}
use explorer_kv.OrdMap.{Map, find}
use explorer_kv.OrdMap.Order.{nat_ord}
use explorer_kv.Parser.Address.{AddressTx, Address}
use explorer_kv.Parser.AddressTxs.Listed.{IsNew}
use explorer_kv.Parser.AddressTxs.Invariant.{IsChain}
use explorer_kv.Parser.AddressTxs.Accept.{StandsAt}

-- The hashes of the stack stand at the first indexes, its bottom at index 0.
abbrev pub IsStack : List Hash → Map ℕ AddressTx → Type 0
IsStack [] txs = Unit
IsStack (h ∷ below) txs =
    ((t : AddressTx) × (find (length below) txs ≡ some t) × (t.tx_hash ≡ h)) × IsStack below txs

-- the status of the entry at an index
abbrev pub status_at : ℕ → ℕ → Status
status_at next k = if ltb k next then Status.confirmed else Status.unconfirmed

-- The chain holds the transactions that are not absent, the confirmed ones in the order of the stack.
pub record Represents (stack : List Hash) (s : Ledger) (a : Address) : Type 0 where
  pub chain : IsChain a
  pub size : a.info.next_confirmed_idx ≡ length stack
  pub stacked : IsStack stack a.txs
  pub status :
      (k : ℕ) (t : AddressTx)
      → find k a.txs ≡ some t
      → s t.tx_hash ≡ status_at a.info.next_confirmed_idx k
  pub found : (h : Hash) → s h ≢ Status.absent → (k : ℕ) × (t : AddressTx) × StandsAt h k t a

-- The index of hashes leads nowhere from a transaction that is absent, unless the key of the transaction
-- was not spelled when its entry was removed.
abbrev pub Leftover : (Hash → Option Hash) → Ledger → Address → Type 0
Leftover printed s a =
    (h : Hash) (i : ℕ) → s h ≡ Status.absent → find h a.tx_idxs ≡ some i → printed h ≡ none

-- an entry is kept under the same index
pub IsStack-kept :
    (stack : List Hash) (txs txs' : Map ℕ AddressTx)
    → ((i : ℕ) → i < length stack → find i txs' ≡ find i txs)
    → IsStack stack txs
    → IsStack stack txs'
IsStack-kept [] txs txs' same is = is
IsStack-kept (h ∷ below) txs txs' same ((t, at, named), is) = (
  (t, same (length below) (omega arith) ∙ at, named),
  IsStack-kept below txs txs' (λ i inside. same i (omega (arith, inside))) is,
)

module _ (stack : List Hash) (s : Ledger) (a : Address) (r : Represents stack s a) (h : Hash) where
  pub absent-IsNew : s h ≡ Status.absent → IsNew h a.txs
  absent-IsNew absent i t at same =
      let here : s t.tx_hash ≡ Status.absent = ap s same ∙ absent in
      ground (arith, here, r.status i t at)

  pub unconfirmed-StandsAt :
      s h ≡ Status.unconfirmed
      → (k : ℕ) × (t : AddressTx) × StandsAt h k t a × (a.info.next_confirmed_idx ≤ k)
  unconfirmed-StandsAt waits =
      let (k, t, stands) = r.found h (λ gone. (let no : ⊥ = ground (arith, waits, gone) in no)) in
      let here : s t.tx_hash ≡ Status.unconfirmed = ap s stands.1 ∙ waits in
      (k, t, stands, ground (arith, here, r.status k t stands.0))
