-- ===== src/Parser/AddressTxs/RoundTrip.antt =====
-- jiexi/src/Parser.cc: a transaction that leaves the chain of an address as it came.
use explorer_kv.Prelude.{
  ℕ, suc, ◌<◌, ◌≤◌, Option, none, some, true, ◌≡◌, ◌≢◌, refl, sym, ap, ◌∙◌, arith, inl, inr,
  Bool-cases, Option-cases, ◌==◌, ==_iff,
}
use explorer_kv.Prelude.Int.{ℤ, pos, negsuc, ltb_ℤ, ◌+ℤ◌, +ℤ_cancel, -ℤ_cancel}
use explorer_kv.Prelude.Result.{ok, ◌>>=◌, >>=-ok}
use explorer_kv.Transaction.{Hash}
use explorer_kv.OrdMap.{Map, find}
use explorer_kv.OrdMap.Order.{nat_ord}
use explorer_kv.OrdMap.Laws.{find-set}
use explorer_kv.Parser.Address.{AddressInfo, AddressTx, Address}
use explorer_kv.Parser.AddressTxs.{
  received_of, sent_of, new_node, insert_address_tx, confirm_address_tx, unconfirm_address_tx,
  reject_address_tx,
}
use explorer_kv.Parser.AddressTxs.Listed.{IsListed, IsNew}
use explorer_kv.Parser.AddressTxs.Invariant.{IsChain}
use explorer_kv.Parser.AddressTxs.Accept.{StandsAt, insert_address_tx-IsChain}
use explorer_kv.Parser.AddressTxs.Confirm.{confirm_address_tx-Confirmed}
use explorer_kv.Parser.AddressTxs.Unconfirm.{unconfirm_address_tx-Unconfirmed}
use explorer_kv.Parser.AddressTxs.Reject.{Rejected, reject_address_tx-Rejected}

-- no entry stands at an index that is not below the count
past_end :
    (n c : ℕ) (txs : Map ℕ AddressTx) (idxs : Map Hash ℕ) (i : ℕ)
    → IsListed n c txs idxs
    → n ≤ i
    → find i txs ≡ none
past_end n c txs idxs i inv past = elim (Option-cases (find i txs)) [
  | inl gone ↦ gone
  | inr (t, at) ↦ let no : ⊥ = omega (arith, inv.inside i t at) in elim no [ ]
]

-- the same counters, and the same entry at each index
pub record SameChain (a b : Address) : Type 0 where
  pub info : b.info ≡ a.info
  pub entries : (i : ℕ) → find i b.txs ≡ find i a.txs

module _ (printed : Hash → Option Hash) (a : Address) (inv : IsChain a) (h : Hash)
    (own : (j : Hash) → printed h ≡ some j → j ≡ h) (time : ℕ) (diff : ℤ)
    (fresh : IsNew h a.txs) where
  back :
      (b : Address)
      → Rejected printed
          (insert_address_tx h time diff a)
          h
          a.info.tx_count
          a.info.tx_count
          (new_node h time diff)
          b
      → SameChain a b
  unfolding insert_address_tx
  back b r = record {
    info = r.info ∙ simp (+ℤ_cancel);
    entries = λ i. elim (Bool-cases (a.info.tx_count == i)) [
      | inl end ↦
          let here : a.info.tx_count ≡ i = (==_iff _ _).0 end in
          let size : b.info.tx_count ≡ a.info.tx_count = ap (λ x. x.tx_count) r.info in
          past_end b.info.tx_count b.info.next_confirmed_idx b.txs b.tx_idxs i r.chain.listed
            (omega (arith, here, size))
          ∙ sym (
              past_end a.info.tx_count a.info.next_confirmed_idx a.txs a.tx_idxs i inv.listed
                (omega (arith, here)))
      | inr other ↦
          let apart : i ≢ a.info.tx_count = ground (arith, other) in
          r.others i apart apart
          ∙ ground (arith, other, find-set a.info.tx_count i (new_node h time diff) a.txs)
    ];
  }

  -- Rejecting a new transaction right after it was put on a well-formed chain returns, and
  -- restores the counters of the address and the entry at each index. The text that formats the
  -- hash as a key names no other hash.
  pub reject_address_tx-insert_address_tx :
      (b : Address) × (reject_address_tx printed h (insert_address_tx h time diff a) ≡ ok b)
      × IsChain b
      × SameChain a b
  unfolding insert_address_tx
  reject_address_tx-insert_address_tx =
      let stands : StandsAt h a.info.tx_count (new_node h time diff)
          (insert_address_tx h time diff a) =
        (
          ground (arith, find-set a.info.tx_count a.info.tx_count (new_node h time diff) a.txs),
          refl,
        ) in
      let (b, r) =
        reject_address_tx-Rejected printed (insert_address_tx h time diff a)
          (insert_address_tx-IsChain h time diff a inv fresh) h own a.info.tx_count a.info.tx_count
          (new_node h time diff) stands inv.listed.bounded refl in
      (b, r.run, r.chain, back b r)

module _ (a : Address) (inv : IsChain a) (h : Hash) (k : ℕ) (t : AddressTx) (time : ℕ) (height : ℤ)
    (stands : StandsAt h k t a) (past : a.info.next_confirmed_idx ≤ k)
    (mined : ltb_ℤ (negsuc 0) height ≡ true) where
  -- Unconfirming a transaction right after it was confirmed restores the counters, and leaves the
  -- entries that were confirmed before.
  pub unconfirm_address_tx-confirm_address_tx :
      (b : Address) × ((confirm_address_tx h time height a >>= unconfirm_address_tx h) ≡ ok b)
      × IsChain b
      × (b.info ≡ a.info)
      × ((i : ℕ) → i < a.info.next_confirmed_idx → find i b.txs ≡ find i a.txs)
  unconfirm_address_tx-confirm_address_tx =
      let (c, made) = confirm_address_tx-Confirmed a inv h k t time height stands past mined in
      let border : suc a.info.next_confirmed_idx ≡ c.info.next_confirmed_idx =
        ap (λ x. x.next_confirmed_idx) (sym made.info) in
      let (b, undone) =
        unconfirm_address_tx-Unconfirmed c made.chain h a.info.next_confirmed_idx
          (record t { tx_block_time = time; tx_height = height }) made.stands border in
      (
        b,
        >>=-ok made.run _ ∙ undone.run,
        undone.chain,
        undone.info
            ∙ ap {A = AddressInfo} {B = AddressInfo}
                (λ x. record x {
                  unconfirmed_received = x.unconfirmed_received +ℤ received_of t.balance_diff;
                  unconfirmed_sent = x.unconfirmed_sent +ℤ sent_of t.balance_diff;
                  unconfirmed_tx_count = x.unconfirmed_tx_count +ℤ pos 1;
                  next_confirmed_idx = a.info.next_confirmed_idx;
                })
                made.info
            ∙ simp (-ℤ_cancel),
        λ i below. undone.others i (ground arith) ∙ made.before i below,
      )
