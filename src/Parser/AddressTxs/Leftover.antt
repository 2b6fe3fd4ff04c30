-- ===== src/Parser/AddressTxs/Leftover.antt =====
-- What stays in the index of the hashes of an address.
use explorer_kv.Prelude.{
  ℕ, List, Option, none, some, false, ◌≡◌, refl, sym, subst, arith, ◌∙◌, ◌==◌, ==_iff, inl, inr,
  Bool-cases,
}
use explorer_kv.Prelude.Int.{ℤ}
use explorer_kv.Transaction.{Hash}
use explorer_kv.TxLogs2.{Ledger, Status, LogType, after}
use explorer_kv.OrdMap.{find}
use explorer_kv.OrdMap.Order.{nat_ord}
use explorer_kv.OrdMap.Laws.{find-set}
use explorer_kv.Parser.Address.{Address}
use explorer_kv.Parser.AddressTxs.{insert_address_tx}
use explorer_kv.Parser.AddressTxs.Listed.{IsNew}
use explorer_kv.Parser.AddressTxs.Ledger.{Represents, Leftover, absent-IsNew}

-- an entry does not make another transaction absent
absent_before :
    (s : Ledger) (type : LogType) (h x : Hash)
    → (h == x) ≡ false
    → after s type h x ≡ Status.absent
    → s x ≡ Status.absent
absent_before s type h x other gone = sym (rw other refl) ∙ gone

-- what a handler leaves of an index that it keeps for hashes out of the chain
pub stay :
    (printed : Hash → Option Hash) (stack : List Hash) (s : Ledger) (type : LogType) (h : Hash)
    (a b : Address)
    → Represents stack s a
    → Leftover printed s a
    → ((x : Hash) → (h == x) ≡ false → IsNew x a.txs → find x b.tx_idxs ≡ find x a.tx_idxs)
    → ((i : ℕ) → after s type h h ≡ Status.absent → find h b.tx_idxs ≡ some i → printed h ≡ none)
    → Leftover printed (after s type h) b
stay printed stack s type h a b r old same own_key x i gone at = elim (Bool-cases (h == x)) [
  | inl mine ↦
      let here : h ≡ x = (==_iff h x).0 mine in
      subst (λ y. printed y ≡ none) here
        (own_key i (subst (λ y. after s type h y ≡ Status.absent) (sym here) gone)
          (subst (λ y. find y b.tx_idxs ≡ some i) (sym here) at))
  | inr other ↦
      let before = absent_before s type h x other gone in
      old x i before (sym (same x other (absent-IsNew stack s a r x before)) ∙ at)
]

pub insert_idxs :
    (h : Hash) (time : ℕ) (diff : ℤ) (a : Address) (x : Hash)
    → (h == x) ≡ false
    → find x (insert_address_tx h time diff a).tx_idxs ≡ find x a.tx_idxs
unfolding insert_address_tx
insert_idxs h time diff a x other = ground (arith, other, find-set h x a.info.tx_count a.tx_idxs)
