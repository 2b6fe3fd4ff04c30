-- ===== src/Parser/AddressTxs/Reject.antt =====
-- jiexi/src/Parser.cc, the loop body of _rejectAddressTxs on the chains of an address.
use explorer_kv.Prelude.{
  ℕ, suc, ◌≤◌, ◌-◌, Option, none, some, true, false, ◌≡◌, ◌≢◌, refl, sym, ap, ◌∙◌, subst, arith,
  leb, ◌==◌, ==_iff, inl, inr, Bool-cases,
}
use explorer_kv.Prelude.Int.{ℤ, pos, ◌-ℤ◌}
use explorer_kv.Prelude.Result.{ok, >>=-ok}
use explorer_kv.Transaction.{Hash}
use explorer_kv.OrdMap.{find, set, erase}
use explorer_kv.OrdMap.Order.{nat_ord}
use explorer_kv.OrdMap.Laws.{find-set, find-erase}
use explorer_kv.Parser.Address.{AddressInfo, AddressTx, Address, AddressTxNode}
use explorer_kv.Parser.AddressTxs.{
  received_of, sent_of, get_address_tx_node, switch_tx_node, move_to_end, del_printed,
  remove_address_tx_node, reject_address_tx,
}
use explorer_kv.Parser.AddressTxs.Totals.{total}
use explorer_kv.Parser.AddressTxs.Listed.{IsListed, IsNew, entry_at, has_height, remove-IsListed}
use explorer_kv.Parser.AddressTxs.Invariant.{IsChain, settled, pending, one, shrink, pending_low}
use explorer_kv.Parser.AddressTxs.Accept.{KeepsOthers, StandsAt, Switched, switch_tx_node-Switched}
use explorer_kv.Parser.AddressTxs.Confirm.{node_of, get_address_tx_node-StandsAt}

-- one round of the loop of `_rejectAddressTxs`
move_to_end-stop :
    (fuel : ℕ) (h : Hash) (a : Address) {node : AddressTxNode}
    → get_address_tx_node h a ≡ ok node
    → (suc node.idx == a.info.tx_count) ≡ true
    → move_to_end (suc fuel) h a ≡ ok (node, a)
unfolding move_to_end
move_to_end-stop fuel h a found here = >>=-ok found _ ∙ rw (here) refl

move_to_end-again :
    (fuel : ℕ) (h : Hash) (a : Address) {b : Address} {node : AddressTxNode}
    → get_address_tx_node h a ≡ ok node
    → (suc node.idx == a.info.tx_count) ≡ false
    → leb 2 a.info.tx_count ≡ true
    → switch_tx_node (a.info.tx_count - 1) node.idx a ≡ ok b
    → move_to_end (suc fuel) h a ≡ move_to_end fuel h b
unfolding move_to_end
move_to_end-again fuel h a found apart two switched =
    >>=-ok found _ ∙ rw (apart) (rw (two) (rw (switched) refl))

-- The loop of `_rejectAddressTxs` ends with the node at the last index, `n`.
pub record AtEnd (a : Address) (h : Hash) (k n : ℕ) (t : AddressTx) (b : Address) : Type 0 where
  pub run : move_to_end 2 h a ≡ ok (node_of n t, b)
  pub chain : IsChain b
  pub info : b.info ≡ a.info
  pub stands : StandsAt h n t b
  pub displaced : find k b.txs ≡ find n a.txs
  pub others : (i : ℕ) → i ≢ n → i ≢ k → find i b.txs ≡ find i a.txs
  pub idxs : KeepsOthers a b

module _ (a : Address) (inv : IsChain a) (h : Hash) (k n : ℕ) (t : AddressTx)
    (stands : StandsAt h k t a) (past : a.info.next_confirmed_idx ≤ k)
    (last : a.info.tx_count ≡ suc n) where
  here-AtEnd : k ≡ n → AtEnd a h k n t a
  here-AtEnd same = record {
    run =
        move_to_end-stop 1 h a (get_address_tx_node-StandsAt h k t a inv stands)
          ((==_iff _ _).1 (ap suc same ∙ sym last))
        ∙ ap (λ x. ok (node_of x t, a)) same;
    chain = inv;
    info = refl;
    stands = subst (λ x. StandsAt h x t a) same stands;
    displaced = ap (λ x. find x a.txs) same;
    others = λ i no also. refl;
    idxs = λ x fresh. refl;
  }

  there-AtEnd :
      (k == n) ≡ false
      → (u : AddressTx) → find n a.txs ≡ some u
      → (b : Address) → Switched a n k u t b
      → AtEnd a h k n t b
  there-AtEnd apart u at b s = record {
    run =
        move_to_end-again 1 h a (get_address_tx_node-StandsAt h k t a inv stands)
          (ground (arith, apart, last))
          (ground (arith, apart, last, inv.listed.inside k t stands.0))
          (subst (λ x. switch_tx_node x k a ≡ ok b) border s.run)
        ∙ move_to_end-stop 0 h b (get_address_tx_node-StandsAt h n t b s.chain now)
            ((==_iff _ _).1 (sym last ∙ sym (ap (λ x. x.tx_count) s.info)));
    chain = s.chain;
    info = s.info;
    stands = now;
    displaced = ap (find k) s.txs ∙ ground (arith, at, find-set k k u (set n t a.txs));
    others = λ i no also.
        ap (find i) s.txs ∙ ground (arith, find-set k i u (set n t a.txs), find-set n i t a.txs);
    idxs = s.idxs;
  }
    where
      border : n ≡ a.info.tx_count - 1
      border = omega (arith, last)

      now : StandsAt h n t b
      now = (
        ap (find n) s.txs
            ∙ ground (arith, apart, find-set k n u (set n t a.txs), find-set n n t a.txs),
        stands.1,
      )

  pub move_to_end-AtEnd : (b : Address) × AtEnd a h k n t b
  move_to_end-AtEnd = elim (Bool-cases (k == n)) [
    | inl same ↦ (a, here-AtEnd ((==_iff _ _).0 same))
    | inr apart ↦
        let (u, at) =
          entry_at a.info.tx_count a.info.next_confirmed_idx n a.txs a.tx_idxs inv.listed
            (omega (arith, last)) in
        let (b, s) =
          switch_tx_node-Switched a inv n k u t
            (omega (arith, last, past, inv.listed.inside k t stands.0)) past at stands.0 in
        (b, there-AtEnd apart u at b s)
  ]

-- `b` is the address after the unconfirmed transaction `h` was rejected, whose entry `t` stood at `k`:
-- the chain has one entry less and none of `h`, and only the last entry changed its place.
pub record Rejected (printed : Hash → Option Hash) (a : Address) (h : Hash) (k n : ℕ)
    (t : AddressTx) (b : Address) : Type 0 where
  pub run : reject_address_tx printed h a ≡ ok b
  pub chain : IsChain b
  pub gone : IsNew h b.txs
  pub displaced : k ≢ n → find k b.txs ≡ find n a.txs
  pub others : (i : ℕ) → i ≢ n → i ≢ k → find i b.txs ≡ find i a.txs
  pub idxs : KeepsOthers a b
  pub left : (i : ℕ) → find h b.tx_idxs ≡ some i → printed h ≡ none
  pub info : b.info ≡ record a.info {
    tx_count = n;
    received = a.info.received -ℤ received_of t.balance_diff;
    sent = a.info.sent -ℤ sent_of t.balance_diff;
    unconfirmed_received = a.info.unconfirmed_received -ℤ received_of t.balance_diff;
    unconfirmed_sent = a.info.unconfirmed_sent -ℤ sent_of t.balance_diff;
    unconfirmed_tx_count = a.info.unconfirmed_tx_count -ℤ pos 1;
  }

module _ (printed : Hash → Option Hash) (h : Hash) (own : (j : Hash) → printed h ≡ some j → j ≡ h)
    (n : ℕ) (t : AddressTx) (b : Address) (inv : IsChain b) (stands : StandsAt h n t b)
    (last : b.info.tx_count ≡ suc n) (past : b.info.next_confirmed_idx ≤ n) where
  abbrev removed_info : AddressInfo → AddressInfo
  removed_info i = record i {
    tx_count = n;
    received = i.received -ℤ received_of t.balance_diff;
    sent = i.sent -ℤ sent_of t.balance_diff;
    unconfirmed_received = i.unconfirmed_received -ℤ received_of t.balance_diff;
    unconfirmed_sent = i.unconfirmed_sent -ℤ sent_of t.balance_diff;
    unconfirmed_tx_count = i.unconfirmed_tx_count -ℤ pos 1;
  }

  abbrev removed : Address
  removed = record b {
    info = removed_info b.info;
    txs = erase n b.txs;
    tx_idxs = del_printed printed (printed h) b.tx_idxs;
  }

  remove_address_tx_node-eq : remove_address_tx_node printed n h t.balance_diff b ≡ ok removed
  unfolding remove_address_tx_node
  remove_address_tx_node-eq =
      let whole : (b.info.tx_count == suc n) ≡ true = (==_iff _ _).1 last in
      let border : b.info.tx_count - 1 ≡ n = omega (arith, last) in
      rw (whole)
        (ap (λ x. ok (record removed { info = record removed.info { tx_count = x } })) border)

  kept :
      (o : Option Hash)
      → printed h ≡ o
      → (j : Hash) → j ≢ h
      → find j (del_printed printed o b.tx_idxs) ≡ find j b.tx_idxs
  kept none nothing j apart = refl
  kept (some i) text j apart = ground (arith, find-erase i j b.tx_idxs, own i text)

  -- the index has `h` no more, unless its key was not spelled
  left_over :
      (o : Option Hash)
      → printed h ≡ o
      → (i : ℕ) → find h (del_printed printed o b.tx_idxs) ≡ some i
      → printed h ≡ none
  left_over none nothing i there = nothing
  left_over (some j) text i there = ground (arith, find-erase j h b.tx_idxs, own j text)

  low : has_height t ≡ false
  low = inv.listed.heights n t stands.0 ∙ ground (arith, past)

  removed-IsListed : IsListed n b.info.next_confirmed_idx removed.txs removed.tx_idxs
  removed-IsListed =
      remove-IsListed n b.info.next_confirmed_idx b.txs b.tx_idxs removed.tx_idxs
        (subst (λ x. IsListed x b.info.next_confirmed_idx b.txs b.tx_idxs) last inv.listed) t
        stands.0 past (λ j apart. kept (printed h) refl j (λ same. apart (same ∙ sym stands.1)))

  less :
      (weight : AddressTx → ℤ) {amount part : ℤ}
      → amount ≡ total weight b.info.tx_count b.txs
      → weight t ≡ part
      → amount -ℤ part ≡ total weight n (erase n b.txs)
  less weight before here =
      shrink weight n t b.txs stands.0 (before ∙ ap (λ x. total weight x b.txs) last) here

  removed-IsChain : IsChain removed
  removed-IsChain = record {
    listed = removed-IsListed;
    balanced = record {
      received = less (settled received_of) inv.balanced.received refl;
      sent = less (settled sent_of) inv.balanced.sent refl;
      unconfirmed_tx_count =
          less (pending one) inv.balanced.unconfirmed_tx_count (pending_low one t low);
      unconfirmed_received =
          less (pending received_of) inv.balanced.unconfirmed_received
            (pending_low received_of t low);
      unconfirmed_sent =
          less (pending sent_of) inv.balanced.unconfirmed_sent (pending_low sent_of t low);
    };
  }

  removed-IsNew : IsNew h removed.txs
  removed-IsNew i u at same =
      let old : find i b.txs ≡ some u = ground (arith, find-erase n i b.txs) in
      let there : find h b.tx_idxs ≡ some i =
        subst (λ x. find x b.tx_idxs ≡ some i) same (inv.listed.indexed i u old) in
      let here : find h b.tx_idxs ≡ some n =
        subst (λ x. find x b.tx_idxs ≡ some n) stands.1 (inv.listed.indexed n t stands.0) in
      ground (arith, find-erase n i b.txs, there, here)

module _ (printed : Hash → Option Hash) (a : Address) (inv : IsChain a) (h : Hash)
    (own : (j : Hash) → printed h ≡ some j → j ≡ h) (k n : ℕ) (t : AddressTx)
    (stands : StandsAt h k t a) (past : a.info.next_confirmed_idx ≤ k)
    (last : a.info.tx_count ≡ suc n) where
  finish : (b : Address) → AtEnd a h k n t b → (d : Address) × Rejected printed a h k n t d
  unfolding reject_address_tx
  finish b s = (
    done,
    record {
      run =
          >>=-ok s.run _
          ∙ subst (λ x. remove_address_tx_node printed x h t.balance_diff b ≡ ok done)
              (let border : n ≡ b.info.tx_count - 1 = omega (arith, size) in border)
              (remove_address_tx_node-eq printed h own n t b s.chain s.stands size here);
      chain = removed-IsChain printed h own n t b s.chain s.stands size here;
      gone = removed-IsNew printed h own n t b s.chain s.stands size here;
      displaced = λ apart. ground (arith, find-erase n k b.txs, s.displaced);
      others = λ i no also. ground (arith, find-erase n i b.txs, s.others i no also);
      idxs = λ x fresh.
          kept printed h own n t b s.chain s.stands size here (printed h) refl x
            (λ same. fresh k t stands.0 (stands.1 ∙ sym same))
          ∙ s.idxs x fresh;
      left = left_over printed h own n t b s.chain s.stands size here (printed h) refl;
      info = ap (removed_info printed h own n t b s.chain s.stands size here) s.info;
    },
  )
    where
      size : b.info.tx_count ≡ suc n
      size = ap (λ x. x.tx_count) s.info ∙ last

      here : b.info.next_confirmed_idx ≤ n
      here =
          let border : b.info.next_confirmed_idx ≡ a.info.next_confirmed_idx =
            ap (λ x. x.next_confirmed_idx) s.info in
          omega (arith, border, past, last, inv.listed.inside k t stands.0)

      done : Address
      done = removed printed h own n t b s.chain s.stands size here

  -- the loop body of `_rejectAddressTxs` for one address
  pub reject_address_tx-Rejected : (b : Address) × Rejected printed a h k n t b
  reject_address_tx-Rejected =
      let (b, s) = move_to_end-AtEnd a inv h k n t stands past last in finish b s
