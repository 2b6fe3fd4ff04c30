-- ===== src/Log2Producer/Run/Reload.antt =====
-- _initLog2_loadMemrepoTxs (jiexi/src/Log2Producer.cc): the memory pool from the table of hashes and
-- the raw transactions.
use explorer_kv.Prelude.{
  ℕ, true, false, none, some, List, [], ◌∷◌, ◌≡◌, refl, sym, inl, inr, if◌then◌else◌, arith, ==_iff,
  elem, all_distinct, Bool-cases, Option-cases, subst,
}
use explorer_kv.Prelude.Result.{ok}
use explorer_kv.Transaction.{Hash, Tx, key_ord}
use explorer_kv.OrdMap.{Map, find, has}
use explorer_kv.OrdMap.Order.{nat_ord}
use explorer_kv.MemTxRepository.{MemTxRepository, empty, is_exist, has_conflict, ignore_unsync_data}
use explorer_kv.MemTxRepository.Invariant.{Inv, add_tx-Added}
use explorer_kv.Log2Producer.Conflicts.{contender_of_conflict}
use explorer_kv.Log2Producer.Tables.{Db, keys}
use explorer_kv.Log2Producer.Sync.{elem-keys}
use explorer_kv.Log2Producer.Run.{load_txs, load_memrepo_txs}

module _ (rank : Hash → ℕ) (m : MemTxRepository) (inv : Inv rank m) where
  -- A transaction of `m` that a part of `m` does not hold conflicts with nothing in the part.
  no_conflict_in_part :
      (a : MemTxRepository) (tx : Tx)
      → Inv rank a
      → ((h : Hash) (t : Tx) → find h a.txs ≡ some t → find h m.txs ≡ some t)
      → find tx.hash m.txs ≡ some tx
      → is_exist a tx.hash ≡ false
      → has_conflict a.spent_outputs tx.vin ≡ false
  no_conflict_in_part a tx inv_a sub at fresh =
      elim (Bool-cases (has_conflict a.spent_outputs tx.vin)) [
        | inr free ↦ free
        | inl blocked ↦
            let (by, out, _, wanted, taken) =
              contender_of_conflict a.spent_outputs tx.vin blocked in
            let (t, there, s) = inv_a.sound out by taken in
            let here = inv.complete tx.hash tx out at wanted in
            let yonder = inv.complete by t out (sub by t there) s in
            absurd (ground (arith, fresh, there, here, yonder))
      ]

  load_txs-whole :
      (raw : Map Hash Tx) (hs : List Hash) (a : MemTxRepository)
      → all_distinct hs ≡ true
      → ((h : Hash)
          → elem h hs ≡ true
          → (tx : Tx) × (find h m.txs ≡ some tx) × (find h raw ≡ some tx))
      → Inv rank a
      → ((h : Hash) (t : Tx) → find h a.txs ≡ some t → find h m.txs ≡ some t)
      → ((h : Hash) → elem h hs ≡ true → is_exist a h ≡ false)
      → (a' : MemTxRepository) × (load_txs raw hs a ≡ ok a')
        × Inv rank a'
        × ((h : Hash) → find h a'.txs ≡ (if elem h hs then find h m.txs else find h a.txs))
  unfolding load_txs
  load_txs-whole raw [] a d known inv_a sub fresh = (a, refl, inv_a, λ h. refl)
  load_txs-whole raw (h ∷ hs) a d known inv_a sub fresh =
      let self : elem h (h ∷ hs) ≡ true = ground (arith, ==_iff h h) in
      let (tx, at, stored) = known h self in
      let keyed = inv.keyed h tx at in
      let at' : find tx.hash m.txs ≡ some tx = subst (λ k. find k m.txs ≡ some tx) (sym keyed) at in
      let fresh' : is_exist a tx.hash ≡ false =
        subst (λ k. is_exist a k ≡ false) (sym keyed) (fresh h self) in
      let (b, adds, added) =
        add_tx-Added rank a inv_a tx (inv.spendable h tx at) fresh'
          (no_conflict_in_part a tx inv_a sub at' fresh') in
      let (c, loads, inv_c, finds) =
        load_txs-whole raw hs b (ground (arith, d)) (λ j e. known j (ground (arith, e))) added.inv'
          (λ j t e. ground (arith, added.txs j, sub j t, at', ==_iff tx.hash j))
          (λ j e. ground (arith, added.txs j, fresh j, d, keyed, ==_iff h j)) in
      (
        c,
        rw (stored, load_txs) (rw (adds, load_txs) loads),
        inv_c,
        λ j. ground (arith, finds j, added.txs j, keyed, at, ==_iff h j),
      )

find-empty : (h : Hash) → find h empty.txs ≡ none
unfolding find
find-empty h = refl

pub Inv-empty : (rank : Hash → ℕ) → Inv rank empty
unfolding find
Inv-empty rank = record {
  sorted = tt;
  keyed = λ h tx e. cc;
  spendable = λ h tx e. cc;
  sound = λ out h e. cc;
  complete = λ h tx out e s. cc;
}

-- Where the table has each hash of a well-formed pool once and no other, and the raw
-- transactions of the pool are stored, loading throws nothing and gives a well-formed pool with
-- the same transactions and nothing to write.
pub load_memrepo_txs-whole :
    (rank : Hash → ℕ) (m : MemTxRepository) (inv : Inv rank m) (db : Db)
    → all_distinct (keys db.memrepo_txs) ≡ true
    → ((h : Hash) → has h db.memrepo_txs ≡ is_exist m h)
    → ((h : Hash) (tx : Tx) → find h m.txs ≡ some tx → find h db.raw_txs ≡ some tx)
    → (m' : MemTxRepository) × (load_memrepo_txs db empty ≡ ok m')
      × Inv rank m'
      × ((h : Hash) → find h m'.txs ≡ find h m.txs)
      × (m'.unsync_txs_insert ≡ [])
      × (m'.unsync_txs_delete ≡ [])
unfolding load_memrepo_txs
load_memrepo_txs-whole rank m inv db once table stored =
    let known : (h : Hash)
        → elem h (keys db.memrepo_txs) ≡ true
        → (tx : Tx) × (find h m.txs ≡ some tx) × (find h db.raw_txs ≡ some tx) =
      λ h e. elim (Option-cases (find h m.txs)) [
        | inl missing ↦ absurd (ground (arith, missing, table h, elem-keys h db.memrepo_txs))
        | inr (tx, at) ↦ (tx, at, stored h tx at)
      ] in
    let (a, loads, inv_a, finds) =
      load_txs-whole rank m inv db.raw_txs (keys db.memrepo_txs) empty once known (Inv-empty rank)
        (λ h t e. absurd (ground (arith, find-empty h))) (λ h e. ground (arith, find-empty h)) in
    let same : (h : Hash) → find h a.txs ≡ find h m.txs =
      λ h. ground (arith, finds h, find-empty h, elem-keys h db.memrepo_txs, table h) in
    (
      ignore_unsync_data a,
      rw loads,
      unfold ignore_unsync_data in
          record {
            sorted = inv_a.sorted;
            keyed = inv_a.keyed;
            spendable = inv_a.spendable;
            sound = inv_a.sound;
            complete = inv_a.complete;
          },
      λ h. unfold ignore_unsync_data in same h,
      unfold ignore_unsync_data in refl,
      unfold ignore_unsync_data in refl,
    )
