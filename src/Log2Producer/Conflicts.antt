-- ===== src/Log2Producer/Conflicts.antt =====
-- The loop `while (addTx(tx) == false)` of handleBlockAccept (jiexi/src/Log2Producer.cc).
use explorer_kv.Prelude.{
  ℕ, zero, suc, ◌<◌, true, false, none, some, List, [], ◌∷◌, ◌≡◌, sym, inl, inr, if◌then◌else◌,
  arith, ◌==◌, ==_iff, elem, Option-cases, Bool-cases, subst,
}
use explorer_kv.Prelude.Result.{ok}
use explorer_kv.Transaction.{Hash, Tx, TxOutputKey, key_ord, key_beq_iff, spends}
use explorer_kv.OrdMap.{Map, find}
use explorer_kv.OrdMap.Order.{nat_ord}
use explorer_kv.MemTxRepository.{
  MemTxRepository, size, is_exist, add_tx, has_conflict, conflict_spender, get_conflict_tx, tx_at,
}
use explorer_kv.MemTxRepository.Invariant.{
  Inv, IsSpendable, Added, add_tx-Added, Removed, remove_tx-Removed,
}
use explorer_kv.MemTxRepository.Ends.{Descends, Descends-mono, get_spent_end_tx_ends}
use explorer_kv.MemTxRepository.Removal.{Drained, Drained-nil, Drained-cons, end_exists}
use explorer_kv.Log2Producer.{resolve_conflicts}

-- Does some input of the transaction have its output spent by `by`?
pub record Contender (m : MemTxRepository) (tx : Tx) (by : Hash) : Type 0 where
  pub out : TxOutputKey
  pub wanted : spends out tx.vin ≡ true
  pub taken : find out m.spent_outputs ≡ some by

pub contender_of_conflict :
    (spent : Map TxOutputKey Hash) (vin : List TxOutputKey)
    → has_conflict spent vin ≡ true
    → (by : Hash) × (out : TxOutputKey) × (conflict_spender spent vin ≡ some by)
      × (spends out vin ≡ true)
      × (find out spent ≡ some by)
unfolding has_conflict conflict_spender
contender_of_conflict spent [] h = cc
contender_of_conflict spent (i ∷ vin) h = elim (Option-cases (find i spent)) [
  | inl free ↦
      let (by, out, found, wanted, taken) =
        contender_of_conflict spent vin (ground (arith, free)) in
      (by, out, rw (free, conflict_spender) found, rw wanted (ground arith), taken)
  | inr (by, taken) ↦ (by, i, rw (taken, conflict_spender), ground (arith, key_beq_iff i i), taken)
]

-- What is there is not what is not there.
other_of :
    (m : MemTxRepository) (k h : Hash) (t : Tx)
    → find k m.txs ≡ some t
    → is_exist m h ≡ false
    → (k == h) ≡ false
other_of m k h t at free = ground (arith, ==_iff k h)

module _ (rank : Hash → ℕ) where
  -- A transaction of the repository that stands in the way of `tx`.
  pub record InTheWay (m : MemTxRepository) (tx : Tx) (h : Hash) : Type 0 where
    pub by : Hash
    pub contender : Contender m tx by
    pub descends : Descends m by h

  -- `getConflictTx` finds one, where `addTx` refuses a transaction that is not there.
  get_conflict_tx_finds :
      (m : MemTxRepository) (tx : Tx)
      → Inv rank m
      → is_exist m tx.hash ≡ false
      → has_conflict m.spent_outputs tx.vin ≡ true
      → (h : Hash) × (t : Tx) × (get_conflict_tx m tx ≡ ok h)
        × (find h m.txs ≡ some t)
        × ((h == tx.hash) ≡ false)
        × InTheWay m tx h
  unfolding get_conflict_tx
  get_conflict_tx_finds m tx inv fresh blocked =
      let (by, out, found, wanted, taken) = contender_of_conflict m.spent_outputs tx.vin blocked in
      let (owner, at, s) = inv.sound out by taken in
      let keyed = inv.keyed by owner at in
      let other : (by == tx.hash) ≡ false = other_of m by tx.hash owner at fresh in
      let (h, ends, e) = get_spent_end_tx_ends rank m inv owner in
      let at' : find owner.hash m.txs ≡ some owner =
        subst (λ k. find k m.txs ≡ some owner) (sym keyed) at in
      let (t, there) = end_exists rank m inv owner h at' e in
      (
        h,
        t,
        rw (found, get_conflict_tx) (rw (other, at, tx_at) ends),
        there,
        other_of m h tx.hash t there fresh,
        record {
          by = by;
          contender = record { out = out; wanted = wanted; taken = taken };
          descends = subst (λ k. Descends m k h) keyed e.descends;
        },
      )

  pub refused :
      (m : MemTxRepository) (tx : Tx)
      → IsSpendable rank tx
      → is_exist m tx.hash ≡ false
      → has_conflict m.spent_outputs tx.vin ≡ true
      → add_tx m tx ≡ ok (m, false)
  unfolding add_tx
  refused m tx good fresh blocked = rw (good.regular, fresh, blocked)

  -- what the loop leaves: `hs` are gone from `cleared`, and then `tx` is added
  pub record Resolved (m : MemTxRepository) (tx : Tx) (hs : List Hash) (m' : MemTxRepository)
      : Type 0 where
    pub cleared : MemTxRepository
    pub drained : Drained rank m hs cleared
    pub added : Added rank cleared tx m'
    pub causes : (h : Hash) → elem h hs ≡ true → InTheWay m tx h

  Contender-mono :
      (m m1 : MemTxRepository) (tx : Tx) (by : Hash)
      → Inv rank m
      → Inv rank m1
      → ((j : Hash) (t : Tx) → find j m1.txs ≡ some t → find j m.txs ≡ some t)
      → Contender m1 tx by
      → Contender m tx by
  Contender-mono m m1 tx by inv inv1 sub c =
      let (t, at, s) = inv1.sound c.out by c.taken in
      record { out = c.out; wanted = c.wanted; taken = inv.complete by t c.out (sub by t at) s }

  kept_of :
      (m m1 : MemTxRepository) (h : Hash)
      → ((j : Hash) → find j m1.txs ≡ (if h == j then none else find j m.txs))
      → (j : Hash) (t : Tx) → find j m1.txs ≡ some t
      → find j m.txs ≡ some t
  kept_of m m1 h txs j t e = ground (arith, txs j)

  Resolved-cons :
      (m m1 m' : MemTxRepository) (inv : Inv rank m) (tx : Tx) (h : Hash) (hs : List Hash)
      → is_exist m h ≡ true
      → InTheWay m tx h
      → Removed rank m h m1
      → Resolved m1 tx hs m'
      → Resolved m tx (h ∷ hs) m'
  Resolved-cons m m1 m' inv tx h hs there way r d =
      let sub = kept_of m m1 h r.txs in
      record {
        cleared = d.cleared;
        drained = Drained-cons rank m m1 d.cleared inv h hs there r d.drained;
        added = d.added;
        causes = λ j e. elim (Bool-cases (h == j)) [
          | inl same ↦ subst (InTheWay m tx) ((==_iff h j).0 same) way
          | inr other ↦
              let w = d.causes j (ground (arith, other)) in
              record {
                by = w.by;
                contender = Contender-mono m m1 tx w.by inv r.inv' sub w.contender;
                descends = Descends-mono sub w.descends;
              }
        ];
      }

  -- In a well-formed pool, for a spendable transaction that it does not hold, with fuel above
  -- the size of the pool, the loop over conflicts ends with the transaction added, and each
  -- transaction that it removed descends from one that spends an input of it.
  pub resolve_conflicts_fuel :
      (fuel : ℕ) (m : MemTxRepository) (tx : Tx)
      → Inv rank m
      → IsSpendable rank tx
      → is_exist m tx.hash ≡ false
      → size m < fuel
      → (m' : MemTxRepository) × (hs : List Hash) × (resolve_conflicts fuel m tx ≡ ok (m', hs))
        × Resolved m tx hs m'
  unfolding resolve_conflicts
  resolve_conflicts_fuel zero m tx inv good fresh less = absurd (omega arith)
  resolve_conflicts_fuel (suc fuel) m tx inv good fresh less =
      elim (Bool-cases (has_conflict m.spent_outputs tx.vin)) [
        | inl blocked ↦
            let (h, t, finds, there, other, way) = get_conflict_tx_finds m tx inv fresh blocked in
            let (m1, removes, r) = remove_tx-Removed rank m inv h t there in
            let (m', hs, runs, d) =
              resolve_conflicts_fuel fuel m1 tx r.inv' good (ground (arith, r.txs tx.hash, fresh))
                (omega (arith, r.smaller)) in
            (
              m',
              h ∷ hs,
              rw (refused m tx good fresh blocked, resolve_conflicts)
                  (rw (finds, other) (rw (removes, runs))),
              Resolved-cons m m1 m' inv tx h hs (ground (arith, there)) way r d,
            )
        | inr free ↦
            let (m', adds, a) = add_tx-Added rank m inv tx good fresh free in
            (
              m',
              [],
              rw (adds, resolve_conflicts),
              record {
                cleared = m;
                drained = Drained-nil rank m inv;
                added = a;
                causes = λ h e. cc;
              },
            )
      ]
