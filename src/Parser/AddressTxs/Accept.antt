-- ===== src/Parser/AddressTxs/Accept.antt =====
-- jiexi/src/Parser.cc, _accpetTx_insertAddressTxs and _switchTxNode on the chains of an address.
use explorer_kv.Prelude.{ℕ, ◌≤◌, some, ◌≡◌, refl, arith}
use explorer_kv.Prelude.Int.{ℤ}
use explorer_kv.Prelude.Result.{ok}
use explorer_kv.Transaction.{Hash}
use explorer_kv.OrdMap.{find, set}
use explorer_kv.OrdMap.Order.{nat_ord}
use explorer_kv.OrdMap.Laws.{find-set}
use explorer_kv.Parser.Address.{AddressTx, Address}
use explorer_kv.Parser.AddressTxs.{
  received_of, sent_of, new_node, insert_address_tx, switch_tx_node,
}
use explorer_kv.Parser.AddressTxs.Totals.{total, total-switch}
use explorer_kv.Parser.AddressTxs.Listed.{IsNew, append-IsListed, switch-IsListed}
use explorer_kv.Parser.AddressTxs.Invariant.{IsChain, settled, pending, one, grow}

-- `t` is the entry of the transaction `h`, at the index `k`.
abbrev pub StandsAt : Hash → ℕ → AddressTx → Address → Type 0
StandsAt h k t a = (find k a.txs ≡ some t) × (t.tx_hash ≡ h)

-- What the index of hashes has of transactions that the chain has not, it keeps.
abbrev pub KeepsOthers : Address → Address → Type 0
KeepsOthers a b = (x : Hash) → IsNew x a.txs → find x b.tx_idxs ≡ find x a.tx_idxs

module _ (h : Hash) (time : ℕ) (diff : ℤ) (a : Address) (inv : IsChain a)
    (fresh : IsNew h a.txs) where
  abbrev entry : AddressTx
  entry = new_node h time diff

  pub insert_address_tx-IsChain : IsChain (insert_address_tx h time diff a)
  unfolding insert_address_tx
  insert_address_tx-IsChain = record {
    listed =
        append-IsListed a.info.tx_count a.info.next_confirmed_idx a.txs a.tx_idxs inv.listed h entry
          refl refl fresh;
    balanced = record {
      received = grow (settled received_of) a.info.tx_count entry a.txs inv.balanced.received refl;
      sent = grow (settled sent_of) a.info.tx_count entry a.txs inv.balanced.sent refl;
      unconfirmed_tx_count =
          grow (pending one) a.info.tx_count entry a.txs inv.balanced.unconfirmed_tx_count refl;
      unconfirmed_received =
          grow (pending received_of) a.info.tx_count entry a.txs inv.balanced.unconfirmed_received
            refl;
      unconfirmed_sent =
          grow (pending sent_of) a.info.tx_count entry a.txs inv.balanced.unconfirmed_sent refl;
    };
  }

-- What exchanging two unconfirmed entries does to an address: `w` comes to `i` and `v` to `j`.
pub record Switched (a : Address) (i j : ℕ) (v w : AddressTx) (b : Address) : Type 0 where
  pub run : switch_tx_node i j a ≡ ok b
  pub chain : IsChain b
  pub info : b.info ≡ a.info
  pub txs : b.txs ≡ set j v (set i w a.txs)
  pub idxs : KeepsOthers a b

module _ (a : Address) (inv : IsChain a) (i j : ℕ) (v w : AddressTx)
    (past_i : a.info.next_confirmed_idx ≤ i) (past_j : a.info.next_confirmed_idx ≤ j)
    (at_i : find i a.txs ≡ some v) (at_j : find j a.txs ≡ some w) where
  abbrev exchanged : Address
  exchanged = record a {
    txs = set j v (set i w a.txs);
    tx_idxs = set w.tx_hash i (set v.tx_hash j a.tx_idxs);
  }

  keeps :
      (weight : AddressTx → ℤ) {amount : ℤ}
      → amount ≡ total weight a.info.tx_count a.txs
      → amount ≡ total weight a.info.tx_count exchanged.txs
  keeps weight before =
      rw
        (total-switch weight a.info.tx_count i j v w a.txs (inv.listed.inside i v at_i)
          (inv.listed.inside j w at_j) at_i at_j)
        before

  exchanged-IsChain : IsChain exchanged
  exchanged-IsChain = record {
    listed =
        switch-IsListed a.info.tx_count a.info.next_confirmed_idx a.txs a.tx_idxs inv.listed i j v w
          past_i past_j at_i at_j;
    balanced = record {
      received = keeps (settled received_of) inv.balanced.received;
      sent = keeps (settled sent_of) inv.balanced.sent;
      unconfirmed_tx_count = keeps (pending one) inv.balanced.unconfirmed_tx_count;
      unconfirmed_received = keeps (pending received_of) inv.balanced.unconfirmed_received;
      unconfirmed_sent = keeps (pending sent_of) inv.balanced.unconfirmed_sent;
    };
  }

  pub switch_tx_node-Switched : (b : Address) × Switched a i j v w b
  unfolding switch_tx_node
  switch_tx_node-Switched = (
    exchanged,
    record {
      run = rw (at_i, at_j) refl;
      chain = exchanged-IsChain;
      info = refl;
      txs = refl;
      idxs = λ x fresh. ground (
        arith,
        fresh i v at_i,
        fresh j w at_j,
        find-set v.tx_hash x j a.tx_idxs,
        find-set w.tx_hash x i (set v.tx_hash j a.tx_idxs),
      );
    },
  )
