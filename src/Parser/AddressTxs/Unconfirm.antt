-- ===== src/Parser/AddressTxs/Unconfirm.antt =====
-- jiexi/src/Parser.cc, the loop body of unconfirmTx on the chains of an address.
use explorer_kv.Prelude.{ℕ, suc, ◌<◌, ◌-◌, true, ◌≡◌, ◌≢◌, refl, ap, ◌∙◌, arith, ltb, ◌==◌, ==_iff}
use explorer_kv.Prelude.Int.{pos, negsuc, ◌+ℤ◌}
use explorer_kv.Prelude.Result.{ok, >>=-ok}
use explorer_kv.Transaction.{Hash}
use explorer_kv.OrdMap.{find, set}
use explorer_kv.OrdMap.Order.{nat_ord}
use explorer_kv.OrdMap.Laws.{find-set}
use explorer_kv.Parser.Address.{AddressTx, Address, get}
use explorer_kv.Parser.AddressTxs.{
  received_of, sent_of, unconfirm_address_tx_node, unconfirm_address_tx,
}
use explorer_kv.Parser.AddressTxs.Listed.{has_height, rewrite-IsListed}
use explorer_kv.Parser.AddressTxs.Invariant.{IsChain, one, revalue_kept, revalue_unconfirmed}
use explorer_kv.Parser.AddressTxs.Accept.{KeepsOthers, StandsAt}
use explorer_kv.Parser.AddressTxs.Confirm.{get_address_tx_node-StandsAt}

-- `b` is the address after the last confirmed transaction `h`, whose entry is `t`, was unconfirmed: its
-- entry stays where it is and becomes the first unconfirmed one.
pub record Unconfirmed (a : Address) (h : Hash) (k : ℕ) (t : AddressTx) (b : Address) : Type 0 where
  pub run : unconfirm_address_tx h a ≡ ok b
  pub chain : IsChain b
  pub next_confirmed_idx : b.info.next_confirmed_idx ≡ k
  pub stands : StandsAt h k (record t { tx_block_time = 0; tx_height = negsuc 0 }) b
  pub others : (i : ℕ) → i ≢ k → find i b.txs ≡ find i a.txs
  pub idxs : KeepsOthers a b
  pub info : b.info ≡ record a.info {
    unconfirmed_received = a.info.unconfirmed_received +ℤ received_of t.balance_diff;
    unconfirmed_sent = a.info.unconfirmed_sent +ℤ sent_of t.balance_diff;
    unconfirmed_tx_count = a.info.unconfirmed_tx_count +ℤ pos 1;
    next_confirmed_idx = k;
  }

module _ (a : Address) (inv : IsChain a) (h : Hash) (k : ℕ) (t : AddressTx)
    (stands : StandsAt h k t a) (last : suc k ≡ a.info.next_confirmed_idx) where
  abbrev freed_entry : AddressTx
  freed_entry = record t { tx_block_time = 0; tx_height = negsuc 0 }

  abbrev unconfirmed : ℕ → Address
  unconfirmed next = record a {
    info = record a.info {
      unconfirmed_received = a.info.unconfirmed_received +ℤ received_of t.balance_diff;
      unconfirmed_sent = a.info.unconfirmed_sent +ℤ sent_of t.balance_diff;
      unconfirmed_tx_count = a.info.unconfirmed_tx_count +ℤ pos 1;
      next_confirmed_idx = next;
    };
    txs = set k freed_entry a.txs;
  }

  unconfirm_address_tx-eq : unconfirm_address_tx h a ≡ ok (unconfirmed k)
  unfolding unconfirm_address_tx unconfirm_address_tx_node
  unconfirm_address_tx-eq =
      let positive : ltb 0 a.info.next_confirmed_idx ≡ true = ground (arith, last) in
      let behind : (suc k == a.info.next_confirmed_idx) ≡ true = (==_iff _ _).1 last in
      let border : a.info.next_confirmed_idx - 1 ≡ k = omega (arith, last) in
      >>=-ok (get_address_tx_node-StandsAt h k t a inv stands) _
      ∙ (rw (positive) (rw (behind) (>>=-ok (ap get stands.0) _)))
      ∙ ap (λ next. ok (unconfirmed next)) border

  inside : k < a.info.tx_count
  inside = inv.listed.inside k t stands.0

  high : has_height t ≡ true
  high = inv.listed.heights k t stands.0 ∙ ground (arith, last)

  unconfirmed-IsChain : IsChain (unconfirmed k)
  unconfirmed-IsChain = record {
    listed =
        rewrite-IsListed a.info.tx_count a.info.next_confirmed_idx a.txs a.tx_idxs inv.listed k k
          freed_entry t (omega (arith, inside)) stands.0 refl (ground arith)
          (λ i other. ground (arith, last));
    balanced = record {
      received =
          revalue_kept received_of a.info.tx_count k freed_entry t a.txs inside stands.0 refl
            inv.balanced.received;
      sent =
          revalue_kept sent_of a.info.tx_count k freed_entry t a.txs inside stands.0 refl
            inv.balanced.sent;
      unconfirmed_tx_count =
          revalue_unconfirmed one a.info.tx_count k freed_entry t a.txs inside stands.0 refl high
            refl inv.balanced.unconfirmed_tx_count;
      unconfirmed_received =
          revalue_unconfirmed received_of a.info.tx_count k freed_entry t a.txs inside stands.0 refl
            high refl inv.balanced.unconfirmed_received;
      unconfirmed_sent =
          revalue_unconfirmed sent_of a.info.tx_count k freed_entry t a.txs inside stands.0 refl
            high refl inv.balanced.unconfirmed_sent;
    };
  }

  -- the loop body of `unconfirmTx` for one address
  pub unconfirm_address_tx-Unconfirmed : (b : Address) × Unconfirmed a h k t b
  unconfirm_address_tx-Unconfirmed = (
    unconfirmed k,
    record {
      run = unconfirm_address_tx-eq;
      chain = unconfirmed-IsChain;
      next_confirmed_idx = refl;
      stands = (ground (arith, find-set k k freed_entry a.txs), stands.1);
      others = λ i apart. ground (arith, find-set k i freed_entry a.txs);
      idxs = λ x fresh. refl;
      info = refl;
    },
  )
