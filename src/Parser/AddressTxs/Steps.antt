-- ===== src/Parser/AddressTxs/Steps.antt =====
-- One entry of the log on the chain of an address, against its stack and the statuses.
use explorer_kv.Prelude.{
  ℕ, suc, ◌≤◌, List, ◌∷◌, some, ◌≡◌, ◌≢◌, sym, ap, ◌∙◌, subst, arith, ◌==◌, inl, inr, Bool-cases,
  ==_iff,
}
use explorer_kv.Prelude.Int.{ℤ}
use explorer_kv.Transaction.{Hash}
use explorer_kv.TxLogs2.{Ledger, Status, LogType, after}
use explorer_kv.OrdMap.{Map, find, set}
use explorer_kv.OrdMap.Order.{nat_ord}
use explorer_kv.OrdMap.Laws.{find-set}
use explorer_kv.Parser.Address.{AddressTx, Address}
use explorer_kv.Parser.AddressTxs.{new_node, insert_address_tx}
use explorer_kv.Parser.AddressTxs.Listed.{set_cases}
use explorer_kv.Parser.AddressTxs.Invariant.{IsChain}
use explorer_kv.Parser.AddressTxs.Accept.{StandsAt, insert_address_tx-IsChain}
use explorer_kv.Parser.AddressTxs.Confirm.{Confirmed}
use explorer_kv.Parser.AddressTxs.Ledger.{Represents, IsStack-kept, status_at, absent-IsNew}

-- the hash of an entry stands at no other index
pub alone :
    (a : Address) (h : Hash) (k i : ℕ) (t u : AddressTx)
    → IsChain a
    → StandsAt h k t a
    → find i a.txs ≡ some u
    → u.tx_hash ≡ h
    → i ≡ k
alone a h k i t u inv (at, named) there same =
    let one : find h a.tx_idxs ≡ some k =
      subst (λ x. find x a.tx_idxs ≡ some k) named (inv.listed.indexed k t at) in
    let two : find h a.tx_idxs ≡ some i =
      subst (λ x. find x a.tx_idxs ≡ some i) same (inv.listed.indexed i u there) in
    ground (arith, one, two)

-- two entries at one index have one hash
pub same_hash :
    (m : Map ℕ AddressTx) (i k : ℕ) (t u : AddressTx)
    → i ≡ k
    → find k m ≡ some t
    → find i m ≡ some u
    → u.tx_hash ≡ t.tx_hash
same_hash m i k t u one at there =
    let both : some u ≡ some t = sym there ∙ ap (λ x. find x m) one ∙ at in
    let same : u ≡ t = cc in ap (λ x. x.tx_hash) same

module _ (stack : List Hash) (s : Ledger) (a : Address) (r : Represents stack s a) (h : Hash) where
  module _ (time : ℕ) (diff : ℤ) (absent : s h ≡ Status.absent) where
    abbrev entry : AddressTx
    entry = new_node h time diff

    accept-status :
        (k : ℕ) (t : AddressTx)
        → find k (set a.info.tx_count entry a.txs) ≡ some t
        → after s LogType.accept h t.tx_hash ≡ status_at a.info.next_confirmed_idx k
    accept-status k t at = elim (set_cases a.info.tx_count k entry t a.txs at) [
      | inl (here, same) ↦ ground (arith, ap (λ x. x.tx_hash) same, here, r.chain.listed.bounded)
      | inr (other, old) ↦
          ground (arith, r.status k t old, absent-IsNew stack s a r h absent k t old)
    ]

    accept-found :
        (j : Hash)
        → after s LogType.accept h j ≢ Status.absent
        → (k : ℕ) × (t : AddressTx) × ((find k (set a.info.tx_count entry a.txs) ≡ some t)
            × (t.tx_hash ≡ j))
    accept-found j there = elim (Bool-cases (h == j)) [
      | inl mine ↦ (
        a.info.tx_count,
        entry,
        (ground (arith, find-set a.info.tx_count a.info.tx_count entry a.txs), (==_iff h j).0 mine),
      )
      | inr other ↦
          let (k, t, (at, named)) = r.found j (λ gone. there (ground (arith, other, gone))) in
          (
            k,
            t,
            (
              ground
                  (arith, find-set a.info.tx_count k entry a.txs, at, r.chain.listed.inside k t at),
              named,
            ),
          )
    ]

    pub accept-Represents :
        Represents stack (after s LogType.accept h) (insert_address_tx h time diff a)
    unfolding insert_address_tx
    accept-Represents = record {
      chain = insert_address_tx-IsChain h time diff a r.chain (absent-IsNew stack s a r h absent);
      size = r.size;
      stacked =
          IsStack-kept stack a.txs (set a.info.tx_count entry a.txs)
            (λ i below.
              ground
                (arith, r.size, r.chain.listed.bounded, find-set a.info.tx_count i entry a.txs))
            r.stacked;
      status = accept-status;
      found = accept-found;
    }

  module _ (k : ℕ) (t : AddressTx) (stands : StandsAt h k t a)
      (past : a.info.next_confirmed_idx ≤ k) where
    module _ (time : ℕ) (height : ℤ) (b : Address) (made : Confirmed a h k t time height b) where
      border : b.info.next_confirmed_idx ≡ suc a.info.next_confirmed_idx
      border = ap (λ x. x.next_confirmed_idx) made.info

      confirm-status :
          (i : ℕ) (u : AddressTx)
          → find i b.txs ≡ some u
          → after s LogType.confirm h u.tx_hash ≡ status_at b.info.next_confirmed_idx i
      confirm-status i u at = elim (Bool-cases (i == a.info.next_confirmed_idx)) [
        | inl first ↦
            let here : i ≡ a.info.next_confirmed_idx = (==_iff _ _).0 first in
            let mine : u.tx_hash ≡ h =
              same_hash b.txs i a.info.next_confirmed_idx _ u here made.stands.0 at
              ∙ made.stands.1 in
            ground (arith, here, mine, border)
        | inr later ↦ elim (Bool-cases (i == k)) [
          | inl moved ↦
              let here : i ≡ k = (==_iff _ _).0 moved in
              let old : find a.info.next_confirmed_idx a.txs ≡ some u =
                sym
                  (made.displaced (λ same. (let no : ⊥ = ground (arith, later, same, here) in no)))
                ∙ ap (λ x. find x b.txs) (sym here)
                ∙ at in
              ground (
                arith,
                here,
                border,
                r.status a.info.next_confirmed_idx u old,
                alone a h k a.info.next_confirmed_idx t u r.chain stands old,
              )
          | inr other ↦
              let old : find i a.txs ≡ some u =
                sym (made.others i (ground (arith, later)) (ground (arith, other))) ∙ at in
              ground (arith, border, r.status i u old, alone a h k i t u r.chain stands old)
        ]
      ]

      confirm-found :
          (j : Hash)
          → after s LogType.confirm h j ≢ Status.absent
          → (i : ℕ) × (u : AddressTx) × StandsAt j i u b
      confirm-found j there = elim (Bool-cases (h == j)) [
        | inl mine ↦ (_, _, (made.stands.0, made.stands.1 ∙ (==_iff h j).0 mine))
        | inr other ↦
            let (i, u, (at, named)) = r.found j (λ gone. there (ground (arith, other, gone))) in
            let apart : i ≢ k = λ same.
              (let no : ⊥ =
                  ground
                    (arith, other, named, same_hash a.txs i k t u same stands.0 at, stands.1) in
                no) in
            elim (Bool-cases (i == a.info.next_confirmed_idx)) [
              | inl first ↦
                  let here : i ≡ a.info.next_confirmed_idx = (==_iff _ _).0 first in
                  (
                    k,
                    u,
                    (
                      made.displaced (λ same. apart (here ∙ sym same))
                          ∙ ap (λ x. find x a.txs) (sym here)
                          ∙ at,
                      named,
                    ),
                  )
              | inr later ↦ (i, u, (made.others i (ground (arith, later)) apart ∙ at, named))
            ]
      ]

      pub confirm-Represents : Represents (h ∷ stack) (after s LogType.confirm h) b
      confirm-Represents = record {
        chain = made.chain;
        size = border ∙ ap suc r.size;
        stacked = (
          (_, ap (λ x. find x b.txs) (sym r.size) ∙ made.stands.0, made.stands.1),
          IsStack-kept stack a.txs b.txs (λ i below. made.before i (omega (arith, below, r.size)))
              r.stacked,
        );
        status = confirm-status;
        found = confirm-found;
      }
