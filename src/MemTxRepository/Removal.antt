-- ===== src/MemTxRepository/Removal.antt =====
-- Runs of removals of MemTxRepository (jiexi/src/Log2Producer.cc): removeTxAndChildTx and the loop
-- over removeTx().
use explorer_kv.Prelude.{
  ℕ, zero, suc, ◌<◌, true, none, some, List, [], ◌∷◌, ◌≡◌, refl, inl, inr, if◌then◌else◌, arith,
  ◌==◌, ==_iff, ◌||◌, ap, ◌∙◌, elem, all_distinct, Option-cases, Bool-cases, subst,
}
use explorer_kv.Prelude.Result.{ok}
use explorer_kv.Transaction.{Hash, Tx, TxOutputKey, key_ord}
use explorer_kv.OrdMap.{find, has}
use explorer_kv.OrdMap.Order.{nat_ord}
use explorer_kv.TxLogs2.{LogType, Status, Ledger, after, replay, IsLegal, reject_rows}
use explorer_kv.TxLogs2.Lifecycle.{Coheres}
use explorer_kv.MemTxRepository.{MemTxRepository, size, is_exist, remove_tx_and_child_tx}
use explorer_kv.MemTxRepository.Invariant.{Inv, Removed, remove_tx-Removed}
use explorer_kv.MemTxRepository.Unsynced.{HashSet, Tracks, Tracks-Removed, has-insert}
use explorer_kv.MemTxRepository.Ends.{
  Descends, here, output, Descends-mono, EndOf, IsUnspent, get_spent_end_tx_ends,
}

-- A removal is a legal reject.
pub Coheres-reject :
    (s : Ledger) (m m' : MemTxRepository) (h : Hash)
    → Coheres s m
    → is_exist m h ≡ true
    → ((j : Hash) → find j m'.txs ≡ (if h == j then none else find j m.txs))
    → (s h ≡ Status.unconfirmed) × Coheres (after s LogType.reject h) m'
Coheres-reject s m m' h c there txs =
    (ground (arith, c.at h), record { at = λ j. ground (arith, c.at j, txs j) })

module _ (rank : Hash → ℕ) where
  -- `m'` is what the removals of `hs`, in this order, leave of `m`.
  pub record Drained (m : MemTxRepository) (hs : List Hash) (m' : MemTxRepository) : Type 0 where
    pub inv' : Inv rank m'
    pub txs : (j : Hash) → find j m'.txs ≡ (if elem j hs then none else find j m.txs)
    pub were : (j : Hash) → elem j hs ≡ true → is_exist m j ≡ true
    pub distinct : all_distinct hs ≡ true
    pub deleted : (j : Hash) → has j m'.unsync_txs_delete ≡ (has j m.unsync_txs_delete || elem j hs)
    pub tracks : (table : HashSet) → Tracks m table → Tracks m' table
    pub legal :
        (s : Ledger)
        → Coheres s m
        → IsLegal s (reject_rows hs) × Coheres (replay s (reject_rows hs)) m'

  pub Drained-nil : (m : MemTxRepository) → Inv rank m → Drained m [] m
  unfolding replay
  Drained-nil m inv = record {
    inv' = inv;
    txs = λ j. refl;
    were = λ j e. cc;
    distinct = refl;
    deleted = λ j. ground arith;
    tracks = λ table t. t;
    legal = λ s c. (tt, c);
  }

  pub Drained-cons :
      (m m1 m2 : MemTxRepository) (inv : Inv rank m) (h : Hash) (hs : List Hash)
      → is_exist m h ≡ true
      → Removed rank m h m1
      → Drained m1 hs m2
      → Drained m (h ∷ hs) m2
  unfolding replay
  Drained-cons m m1 m2 inv h hs there r d = record {
    inv' = d.inv';
    txs = λ j. ground (arith, d.txs j, r.txs j);
    were = λ j e. ground (arith, d.were j, r.txs j);
    distinct = ground (arith, d.distinct, d.were h, r.txs h);
    deleted =
        λ j. ground (arith, d.deleted j, ap (has j) r.deletes ∙ has-insert h j m.unsync_txs_delete);
    tracks = λ table t. d.tracks table (Tracks-Removed rank m m1 inv table t h r there);
    legal = λ s c.
        let (at, c') = Coheres-reject s m m1 h c there r.txs in
        let (rest, end) = d.legal (after s LogType.reject h) c' in ((at, rest), end);
  }

  -- What is not spent stays so when transactions leave.
  unspent_mono :
      (m m' : MemTxRepository) (out : TxOutputKey)
      → Inv rank m
      → Inv rank m'
      → ((j : Hash) (t : Tx) → find j m'.txs ≡ some t → find j m.txs ≡ some t)
      → find out m.spent_outputs ≡ none
      → find out m'.spent_outputs ≡ none
  unspent_mono m m' out inv inv' sub free = elim (Option-cases (find out m'.spent_outputs)) [
    | inl e ↦ e
    | inr (h, e) ↦
        let (t, at, s) = inv'.sound out h e in
        absurd (ground (arith, inv.complete h t out (sub h t at) s))
  ]

  -- the end that `getSpentEndTx` finds is a transaction of the repository
  pub end_exists :
      (m : MemTxRepository) (inv : Inv rank m) (tx : Tx) (h : Hash)
      → find tx.hash m.txs ≡ some tx
      → EndOf m tx h
      → (t : Tx) × (find h m.txs ≡ some t)
  end_exists m inv tx h at e = elim e.last_at [
    | inl same ↦ (tx, subst (λ k. find k m.txs ≡ some tx) (ground (arith, same, e.last_hash)) at)
    | inr there ↦ (e.last, there)
  ]

  end_self :
      (m : MemTxRepository) (inv : Inv rank m) (tx : Tx) (h : Hash)
      → find tx.hash m.txs ≡ some tx
      → EndOf m tx h
      → tx.hash ≡ h
      → IsUnspent m tx
  end_self m inv tx h at e same = elim e.last_at [
    | inl last ↦ subst (IsUnspent m) last e.unspent
    | inr there ↦
        let last : e.last ≡ tx = ground (arith, at, there, same) in
        subst (IsUnspent m) last e.unspent
  ]

  -- what `removeTxAndChildTx(tx)` leaves
  pub record Pruned (m : MemTxRepository) (tx : Tx) (hs : List Hash) (m' : MemTxRepository)
      : Type 0 where
    pub drained : Drained m hs m'
    pub descends : (j : Hash) → elem j hs ≡ true → Descends m tx.hash j
    pub self : elem tx.hash hs ≡ true
    pub unspent : IsUnspent m' tx

  kept_of_removed :
      (m m1 : MemTxRepository) (h : Hash)
      → ((j : Hash) → find j m1.txs ≡ (if h == j then none else find j m.txs))
      → (j : Hash) (t : Tx) → find j m1.txs ≡ some t
      → find j m.txs ≡ some t
  kept_of_removed m m1 h txs j t e = ground (arith, txs j)

  Pruned-cons :
      (m m1 m2 : MemTxRepository) (inv : Inv rank m) (tx : Tx) (h : Hash) (hs : List Hash)
      → is_exist m h ≡ true
      → Descends m tx.hash h
      → Removed rank m h m1
      → Pruned m1 tx hs m2
      → Pruned m tx (h ∷ hs) m2
  Pruned-cons m m1 m2 inv tx h hs there d r p = record {
    drained = Drained-cons m m1 m2 inv h hs there r p.drained;
    descends = λ j e. elim (Bool-cases (h == j)) [
      | inl same ↦ subst (Descends m tx.hash) ((==_iff h j).0 same) d
      | inr other ↦
          Descends-mono (kept_of_removed m m1 h r.txs) (p.descends j (ground (arith, other)))
    ];
    self = ground (arith, p.self);
    unspent = p.unspent;
  }

  Pruned-one :
      (m m1 : MemTxRepository) (inv : Inv rank m) (tx : Tx) (h : Hash)
      → is_exist m h ≡ true
      → tx.hash ≡ h
      → IsUnspent m tx
      → Removed rank m h m1
      → Pruned m tx (h ∷ []) m1
  Pruned-one m m1 inv tx h there self free r = record {
    drained = Drained-cons m m1 m1 inv h [] there r (Drained-nil m1 r.inv');
    descends = λ j e.
        let same : tx.hash ≡ j = ground (arith, e, self) in subst (Descends m tx.hash) same here;
    self = ground (arith, self);
    unspent = λ i lt.
        unspent_mono m m1 (output tx.hash i) inv r.inv' (kept_of_removed m m1 h r.txs) (free i lt);
  }

  -- In a well-formed pool, for a transaction that it holds, with fuel above the size of the
  -- pool, the removal ends: it takes out the transaction and descendants of it only, and no
  -- output of it stays spent.
  pub remove_tx_and_child_tx_fuel :
      (fuel : ℕ) (m : MemTxRepository) (tx : Tx)
      → Inv rank m
      → find tx.hash m.txs ≡ some tx
      → size m < fuel
      → (m' : MemTxRepository) × (hs : List Hash) × (remove_tx_and_child_tx fuel m tx ≡ ok (m', hs))
        × Pruned m tx hs m'
  unfolding remove_tx_and_child_tx
  remove_tx_and_child_tx_fuel zero m tx inv at less = absurd (omega arith)
  remove_tx_and_child_tx_fuel (suc fuel) m tx inv at less =
      let (h, ends, e) = get_spent_end_tx_ends rank m inv tx in
      let (t, there) = end_exists m inv tx h at e in
      let (m1, removes, r) = remove_tx-Removed rank m inv h t there in
      elim (Bool-cases (tx.hash == h)) [
        | inl same ↦
            let self : tx.hash ≡ h = (==_iff tx.hash h).0 same in
            let free : IsUnspent m tx = end_self m inv tx h at e self in
            (
              m1,
              h ∷ [],
              rw (ends, remove_tx_and_child_tx) (rw removes (rw same)),
              Pruned-one m m1 inv tx h (ground (arith, there)) self free r,
            )
        | inr other ↦
            let (m2, hs, runs, p) =
              remove_tx_and_child_tx_fuel fuel m1 tx r.inv' (ground (arith, r.txs tx.hash))
                (omega (arith, r.smaller)) in
            (
              m2,
              h ∷ hs,
              rw (ends, remove_tx_and_child_tx) (rw removes (rw (other, runs))),
              Pruned-cons m m1 m2 inv tx h hs (ground (arith, there)) e.descends r p,
            )
      ]
