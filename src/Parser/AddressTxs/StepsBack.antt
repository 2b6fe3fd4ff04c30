-- ===== src/Parser/AddressTxs/StepsBack.antt =====
-- An entry of the log that takes a transaction back, on the chain of an address, against its stack and
-- the statuses.
use explorer_kv.Prelude.{
  ℕ, suc, ◌<◌, ◌≤◌, List, ◌∷◌, Option, some, ◌≡◌, ◌≢◌, sym, ap, ◌∙◌, arith, ◌==◌, inl, inr,
  Bool-cases, ==_iff, length,
}
use explorer_kv.Transaction.{Hash}
use explorer_kv.TxLogs2.{Ledger, Status, LogType, after}
use explorer_kv.OrdMap.{find}
use explorer_kv.OrdMap.Order.{nat_ord}
use explorer_kv.Parser.Address.{AddressTx, Address}
use explorer_kv.Parser.AddressTxs.Accept.{StandsAt}
use explorer_kv.Parser.AddressTxs.Unconfirm.{Unconfirmed}
use explorer_kv.Parser.AddressTxs.Reject.{Rejected}
use explorer_kv.Parser.AddressTxs.Ledger.{Represents, IsStack-kept, status_at}
use explorer_kv.Parser.AddressTxs.Steps.{alone, same_hash}

module _ (stack : List Hash) (s : Ledger) (h : Hash) (a : Address) (r : Represents (h ∷ stack) s a)
    (t : AddressTx) (stands : StandsAt h (length stack) t a) (b : Address)
    (undone : Unconfirmed a h (length stack) t b) where
  unconfirm-status :
      (i : ℕ) (u : AddressTx)
      → find i b.txs ≡ some u
      → after s LogType.unconfirm h u.tx_hash ≡ status_at b.info.next_confirmed_idx i
  unconfirm-status i u at = elim (Bool-cases (i == length stack)) [
    | inl top ↦
        let here : i ≡ length stack = (==_iff _ _).0 top in
        let mine : u.tx_hash ≡ h =
          same_hash b.txs i (length stack) _ u here undone.stands.0 at ∙ undone.stands.1 in
        ground (arith, here, mine, undone.next_confirmed_idx)
    | inr other ↦
        let old : find i a.txs ≡ some u = sym (undone.others i (ground (arith, other))) ∙ at in
        ground (
          arith,
          r.size,
          undone.next_confirmed_idx,
          r.status i u old,
          alone a h (length stack) i t u r.chain stands old,
        )
  ]

  unconfirm-found :
      (j : Hash)
      → after s LogType.unconfirm h j ≢ Status.absent
      → (i : ℕ) × (u : AddressTx) × StandsAt j i u b
  unconfirm-found j there = elim (Bool-cases (h == j)) [
    | inl mine ↦ (_, _, (undone.stands.0, undone.stands.1 ∙ (==_iff h j).0 mine))
    | inr other ↦
        let (i, u, (at, named)) = r.found j (λ gone. there (ground (arith, other, gone))) in
        let apart : i ≢ length stack = λ same.
          (let no : ⊥ = ground (
            arith,
            other,
            named,
            same_hash a.txs i (length stack) t u same stands.0 at,
            stands.1,
          ) in
            no) in
        (i, u, (undone.others i apart ∙ at, named))
  ]

  pub unconfirm-Represents : Represents stack (after s LogType.unconfirm h) b
  unconfirm-Represents = record {
    chain = undone.chain;
    size = undone.next_confirmed_idx;
    stacked =
        IsStack-kept stack a.txs b.txs (λ i below. undone.others i (ground arith)) r.stacked.1;
    status = unconfirm-status;
    found = unconfirm-found;
  }

module _ (stack : List Hash) (s : Ledger) (a : Address) (r : Represents stack s a) (h : Hash)
    (printed : Hash → Option Hash) (k n : ℕ) (t : AddressTx) (stands : StandsAt h k t a)
    (past : a.info.next_confirmed_idx ≤ k) (last : a.info.tx_count ≡ suc n) (b : Address)
    (gone : Rejected printed a h k n t b) where
  border : b.info.next_confirmed_idx ≡ a.info.next_confirmed_idx
  border = ap (λ x. x.next_confirmed_idx) gone.info

  below_end : k ≤ n
  below_end = omega (arith, last, r.chain.listed.inside k t stands.0)

  reject-status :
      (i : ℕ) (u : AddressTx)
      → find i b.txs ≡ some u
      → after s LogType.reject h u.tx_hash ≡ status_at b.info.next_confirmed_idx i
  reject-status i u at =
      let size : b.info.tx_count ≡ n = ap (λ x. x.tx_count) gone.info in
      let inside : i < n = omega (arith, size, gone.chain.listed.inside i u at) in
      elim (Bool-cases (i == k)) [
        | inl moved ↦
            let here : i ≡ k = (==_iff _ _).0 moved in
            let old : find n a.txs ≡ some u =
              sym (gone.displaced (λ same. (let no : ⊥ = ground (arith, same, here, inside) in no)))
              ∙ ap (λ x. find x b.txs) (sym here)
              ∙ at in
            ground (arith, border, here, past, below_end, gone.gone i u at, r.status n u old)
        | inr other ↦
            let old : find i a.txs ≡ some u =
              sym (gone.others i (ground (arith, inside)) (ground (arith, other))) ∙ at in
            ground (arith, border, gone.gone i u at, r.status i u old)
      ]

  reject-found :
      (j : Hash)
      → after s LogType.reject h j ≢ Status.absent
      → (i : ℕ) × (u : AddressTx) × StandsAt j i u b
  reject-found j there = elim (Bool-cases (h == j)) [
    | inl mine ↦ (let no : ⊥ = there (ground (arith, mine)) in elim no [ ])
    | inr other ↦
        let (i, u, (at, named)) =
          r.found j (λ none_left. there (ground (arith, other, none_left))) in
        let apart : i ≢ k = λ same.
          (let no : ⊥ =
              ground (arith, other, named, same_hash a.txs i k t u same stands.0 at, stands.1) in
            no) in
        elim (Bool-cases (i == n)) [
          | inl end ↦
              let here : i ≡ n = (==_iff _ _).0 end in
              (
                k,
                u,
                (
                  gone.displaced (λ same. apart (here ∙ sym same))
                      ∙ ap (λ x. find x a.txs) (sym here)
                      ∙ at,
                  named,
                ),
              )
          | inr inner ↦ (i, u, (gone.others i (ground (arith, inner)) apart ∙ at, named))
        ]
  ]

  pub reject-Represents : Represents stack (after s LogType.reject h) b
  reject-Represents = record {
    chain = gone.chain;
    size = border ∙ r.size;
    stacked =
        IsStack-kept stack a.txs b.txs
          (λ i below.
            gone.others i (ground (arith, below, r.size, past, below_end))
              (ground (arith, below, r.size, past)))
          r.stacked;
    status = reject-status;
    found = reject-found;
  }
