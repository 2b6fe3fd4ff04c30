-- ===== src/Parser/AddressTxs/Confirm.antt =====
-- jiexi/src/Parser.cc, the loop bodies of confirmTx and unconfirmTx on the chains of an address.
use explorer_kv.Prelude.{
  ℕ, suc, ◌<◌, ◌≤◌, some, true, false, ◌≡◌, ◌≢◌, refl, sym, ap, ◌∙◌, subst, arith, ◌==◌,
  if◌then◌else◌, inl, inr, Bool-cases, ==_iff,
}
use explorer_kv.Prelude.Int.{ℤ, pos, negsuc, ltb_ℤ, ◌-ℤ◌}
use explorer_kv.Prelude.Result.{ok, >>=-ok}
use explorer_kv.Transaction.{Hash}
use explorer_kv.OrdMap.{find, set}
use explorer_kv.OrdMap.Order.{nat_ord}
use explorer_kv.OrdMap.Laws.{find-set}
use explorer_kv.Parser.Address.{AddressInfo, AddressTx, Address, AddressTxNode, get}
use explorer_kv.Parser.AddressTxs.{
  received_of, sent_of, get_address_tx_node, switch_tx_node, move_to_confirm,
  confirm_address_tx_node, confirm_address_tx,
}
use explorer_kv.Parser.AddressTxs.Listed.{entry_at, has_height, rewrite-IsListed}
use explorer_kv.Parser.AddressTxs.Invariant.{IsChain, one, revalue_kept, revalue_confirmed}
use explorer_kv.Parser.AddressTxs.Accept.{StandsAt, KeepsOthers, Switched, switch_tx_node-Switched}

abbrev pub node_of : ℕ → AddressTx → AddressTxNode
node_of k t = record {
  tx_block_time = t.tx_block_time;
  tx_height = t.tx_height;
  balance_diff = t.balance_diff;
  idx = k;
}

pub get_address_tx_node-StandsAt :
    (h : Hash) (k : ℕ) (t : AddressTx) (a : Address)
    → IsChain a
    → StandsAt h k t a
    → get_address_tx_node h a ≡ ok (node_of k t)
unfolding get_address_tx_node
get_address_tx_node-StandsAt h k t a inv (at, named) =
    let back : find h a.tx_idxs ≡ some k =
      subst (λ x. find x a.tx_idxs ≡ some k) named (inv.listed.indexed k t at) in
    rw (back, at) refl

-- one round of the loop of `confirmTx`: it ends, or it exchanges two nodes
move_to_confirm-stop :
    (fuel : ℕ) (h : Hash) (a : Address) {node : AddressTxNode}
    → get_address_tx_node h a ≡ ok node
    → (a.info.next_confirmed_idx == node.idx) ≡ true
    → move_to_confirm (suc fuel) h a ≡ ok (node, a)
unfolding move_to_confirm
move_to_confirm-stop fuel h a found here = >>=-ok found _ ∙ rw (here) refl

move_to_confirm-again :
    (fuel : ℕ) (h : Hash) (a : Address) {b : Address} {node : AddressTxNode}
    → get_address_tx_node h a ≡ ok node
    → (a.info.next_confirmed_idx == node.idx) ≡ false
    → switch_tx_node a.info.next_confirmed_idx node.idx a ≡ ok b
    → move_to_confirm (suc fuel) h a ≡ move_to_confirm fuel h b
unfolding move_to_confirm
move_to_confirm-again fuel h a found apart switched =
    >>=-ok found _ ∙ rw (apart) (rw (switched) refl)

-- The loop of `confirmTx` ends with the node behind the confirmed ones: `b` is `a` with that entry
-- exchanged for the first unconfirmed one.
pub record Behind (a : Address) (h : Hash) (k : ℕ) (t : AddressTx) (b : Address) : Type 0 where
  pub run : move_to_confirm 2 h a ≡ ok (node_of a.info.next_confirmed_idx t, b)
  pub chain : IsChain b
  pub info : b.info ≡ a.info
  pub stands : StandsAt h a.info.next_confirmed_idx t b
  pub displaced : find k b.txs ≡ find a.info.next_confirmed_idx a.txs
  pub others : (i : ℕ) → i ≢ a.info.next_confirmed_idx → i ≢ k → find i b.txs ≡ find i a.txs
  pub idxs : KeepsOthers a b

module _ (a : Address) (inv : IsChain a) (h : Hash) (k : ℕ) (t : AddressTx)
    (stands : StandsAt h k t a) (past : a.info.next_confirmed_idx ≤ k) where
  here-Behind : a.info.next_confirmed_idx ≡ k → Behind a h k t a
  here-Behind same = record {
    run =
        move_to_confirm-stop 1 h a (get_address_tx_node-StandsAt h k t a inv stands)
          ((==_iff _ _).1 same)
        ∙ ap (λ x. ok (node_of x t, a)) (sym same);
    chain = inv;
    info = refl;
    stands = subst (λ x. StandsAt h x t a) (sym same) stands;
    displaced = ap (λ x. find x a.txs) (sym same);
    others = λ i no also. refl;
    idxs = λ x fresh. refl;
  }

  -- after the exchange of the node with the first unconfirmed one, `u`
  there-Behind :
      (a.info.next_confirmed_idx == k) ≡ false
      → (u : AddressTx) → find a.info.next_confirmed_idx a.txs ≡ some u
      → (b : Address) → Switched a a.info.next_confirmed_idx k u t b
      → Behind a h k t b
  there-Behind apart u at b s = record {
    run =
        move_to_confirm-again 1 h a (get_address_tx_node-StandsAt h k t a inv stands) apart s.run
        ∙ (let next : b.info.next_confirmed_idx ≡ a.info.next_confirmed_idx =
              ap (λ x. x.next_confirmed_idx) s.info in
            move_to_confirm-stop 0 h b
              (get_address_tx_node-StandsAt h a.info.next_confirmed_idx t b s.chain now)
              ((==_iff _ _).1 next));
    chain = s.chain;
    info = s.info;
    stands = now;
    displaced =
        ap (find k) s.txs
        ∙ ground (arith, at, find-set k k u (set a.info.next_confirmed_idx t a.txs));
    others = λ i no also.
        ap (find i) s.txs
        ∙ ground (
          arith,
          find-set k i u (set a.info.next_confirmed_idx t a.txs),
          find-set a.info.next_confirmed_idx i t a.txs,
        );
    idxs = s.idxs;
  }
    where
      now : StandsAt h a.info.next_confirmed_idx t b
      now = (
        ap (find a.info.next_confirmed_idx) s.txs
            ∙ ground (
              arith,
              apart,
              find-set k a.info.next_confirmed_idx u (set a.info.next_confirmed_idx t a.txs),
              find-set a.info.next_confirmed_idx a.info.next_confirmed_idx t a.txs,
            ),
        stands.1,
      )

  pub move_to_confirm-Behind : (b : Address) × Behind a h k t b
  move_to_confirm-Behind = elim (Bool-cases (a.info.next_confirmed_idx == k)) [
    | inl same ↦ (a, here-Behind ((==_iff _ _).0 same))
    | inr apart ↦
        let (u, at) =
          entry_at a.info.tx_count a.info.next_confirmed_idx a.info.next_confirmed_idx a.txs
            a.tx_idxs inv.listed (omega (arith, past, inv.listed.inside k t stands.0)) in
        let (b, s) =
          switch_tx_node-Switched a inv a.info.next_confirmed_idx k u t (omega arith) past at
            stands.0 in
        (b, there-Behind apart u at b s)
  ]

-- `b` is the address after the transaction `h` was confirmed, whose entry `t` stood at `k`: its entry
-- closes the confirmed part, and the entries of that part and their places are as they were.
pub record Confirmed (a : Address) (h : Hash) (k : ℕ) (t : AddressTx) (time : ℕ) (height : ℤ)
    (b : Address) : Type 0 where
  pub run : confirm_address_tx h time height a ≡ ok b
  pub chain : IsChain b
  pub info : b.info ≡ record a.info {
    unconfirmed_received = a.info.unconfirmed_received -ℤ received_of t.balance_diff;
    unconfirmed_sent = a.info.unconfirmed_sent -ℤ sent_of t.balance_diff;
    unconfirmed_tx_count = a.info.unconfirmed_tx_count -ℤ pos 1;
    next_confirmed_idx = suc a.info.next_confirmed_idx;
  }
  pub stands :
      StandsAt h a.info.next_confirmed_idx (record t { tx_block_time = time; tx_height = height }) b
  pub before : (i : ℕ) → i < a.info.next_confirmed_idx → find i b.txs ≡ find i a.txs
  pub displaced :
      k ≢ a.info.next_confirmed_idx → find k b.txs ≡ find a.info.next_confirmed_idx a.txs
  pub others : (i : ℕ) → i ≢ a.info.next_confirmed_idx → i ≢ k → find i b.txs ≡ find i a.txs
  pub idxs : KeepsOthers a b

module _ (h : Hash) (t : AddressTx) (time : ℕ) (height : ℤ) (mined : ltb_ℤ (negsuc 0) height ≡ true)
    (b : Address) (inv : IsChain b) (stands : StandsAt h b.info.next_confirmed_idx t b) where
  abbrev mined_entry : AddressTx
  mined_entry = record t { tx_block_time = time; tx_height = height }

  abbrev confirmed_info : AddressInfo → AddressInfo
  confirmed_info i = record i {
    unconfirmed_received = i.unconfirmed_received -ℤ received_of t.balance_diff;
    unconfirmed_sent = i.unconfirmed_sent -ℤ sent_of t.balance_diff;
    unconfirmed_tx_count = i.unconfirmed_tx_count -ℤ pos 1;
    next_confirmed_idx = suc i.next_confirmed_idx;
  }

  abbrev confirmed : Address
  confirmed = record b {
    info = confirmed_info b.info;
    txs = set b.info.next_confirmed_idx mined_entry b.txs;
  }

  confirm_address_tx_node-eq :
      confirm_address_tx_node
        (record (node_of b.info.next_confirmed_idx t) { tx_block_time = time; tx_height = height })
        b
      ≡ ok confirmed
  unfolding confirm_address_tx_node
  confirm_address_tx_node-eq = >>=-ok (ap get stands.0) _

  inside : b.info.next_confirmed_idx < b.info.tx_count
  inside = inv.listed.inside b.info.next_confirmed_idx t stands.0

  low : has_height t ≡ false
  low = inv.listed.heights b.info.next_confirmed_idx t stands.0 ∙ ground arith

  abbrev n : ℕ
  n = b.info.tx_count

  abbrev c : ℕ
  c = b.info.next_confirmed_idx

  confirmed-IsChain : IsChain confirmed
  confirmed-IsChain = record {
    listed =
        rewrite-IsListed b.info.tx_count b.info.next_confirmed_idx b.txs b.tx_idxs inv.listed
          (suc b.info.next_confirmed_idx) b.info.next_confirmed_idx mined_entry t inside stands.0
          refl (mined ∙ ground arith) (λ i other. ground arith);
    balanced = record {
      received =
          revalue_kept received_of n c mined_entry t b.txs inside stands.0 refl
            inv.balanced.received;
      sent = revalue_kept sent_of n c mined_entry t b.txs inside stands.0 refl inv.balanced.sent;
      unconfirmed_tx_count =
          revalue_confirmed one n c mined_entry t b.txs inside stands.0 refl low mined
            inv.balanced.unconfirmed_tx_count;
      unconfirmed_received =
          revalue_confirmed received_of n c mined_entry t b.txs inside stands.0 refl low mined
            inv.balanced.unconfirmed_received;
      unconfirmed_sent =
          revalue_confirmed sent_of n c mined_entry t b.txs inside stands.0 refl low mined
            inv.balanced.unconfirmed_sent;
    };
  }

module _ (a : Address) (inv : IsChain a) (h : Hash) (k : ℕ) (t : AddressTx) (time : ℕ) (height : ℤ)
    (stands : StandsAt h k t a) (past : a.info.next_confirmed_idx ≤ k)
    (mined : ltb_ℤ (negsuc 0) height ≡ true) where
  finish : (b : Address) → Behind a h k t b → (c : Address) × Confirmed a h k t time height c
  unfolding confirm_address_tx
  finish b s = (
    done,
    record {
      run =
          >>=-ok s.run _
          ∙ subst
              (λ x.
                confirm_address_tx_node
                  (record (node_of x t) { tx_block_time = time; tx_height = height }) b
                ≡ ok done)
              next (confirm_address_tx_node-eq h t time height mined b s.chain now);
      chain = confirmed-IsChain h t time height mined b s.chain now;
      info = ap (confirmed_info h t time height mined b s.chain now) s.info;
      stands = (ground (arith, next, found a.info.next_confirmed_idx), stands.1);
      before = λ i below. ground (arith, next, found i, s.others i, past);
      displaced = λ apart. ground (arith, next, found k, s.displaced);
      others = λ i no also. ground (arith, next, found i, s.others i no also);
      idxs = s.idxs;
    },
  )
    where
      next : b.info.next_confirmed_idx ≡ a.info.next_confirmed_idx
      next = ap (λ x. x.next_confirmed_idx) s.info

      now : StandsAt h b.info.next_confirmed_idx t b
      now = subst (λ x. StandsAt h x t b) (sym next) s.stands

      done : Address
      done = confirmed h t time height mined b s.chain now

      found :
          (i : ℕ)
          → find i done.txs ≡ (
              if b.info.next_confirmed_idx == i
              then some (record t { tx_block_time = time; tx_height = height })
              else find i b.txs)
      found i =
          find-set b.info.next_confirmed_idx i
            (record t { tx_block_time = time; tx_height = height }) b.txs

  -- the whole loop body of `confirmTx` for one address
  pub confirm_address_tx-Confirmed : (b : Address) × Confirmed a h k t time height b
  confirm_address_tx-Confirmed =
      let (b, s) = move_to_confirm-Behind a inv h k t stands past in finish b s
