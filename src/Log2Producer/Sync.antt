-- ===== src/Log2Producer/Sync.antt =====
-- MemTxRepository::syncToDB (jiexi/src/Log2Producer.cc): its statements against the table
-- 0_memrepo_txs.
use explorer_kv.Prelude.{
  ℕ, true, false, not, ◌&&◌, ◌||◌, List, [], ◌∷◌, ◌++◌, ◌≡◌, refl, inl, inr, arith, ltb, ◌==◌,
  length, elem, elem-append, append-nil, append_assoc, all_distinct, Bool-cases,
}
use explorer_kv.Prelude.Result.{ok}
use explorer_kv.Transaction.{Hash}
use explorer_kv.OrdMap.{find, has, set, erase, Above, IsSorted}
use explorer_kv.OrdMap.Order.{nat_ord}
use explorer_kv.OrdMap.Laws.{find-set, find-erase}
use explorer_kv.MemTxRepository.{MemTxRepository, is_exist}
use explorer_kv.MemTxRepository.Unsynced.{HashSet, Tracks}
use explorer_kv.Log2Producer.Tables.{
  Db, insert_memrepo, delete_memrepo, delete_batch, delete_batches, keys, sync_to_db,
}

-- The keys of a sorted set: membership, and no key twice.
pub elem-keys : (h : Hash) (s : HashSet) → elem h (keys s) ≡ has h s
unfolding find
elem-keys h [] = refl
elem-keys h ((k, _) ∷ s) = ground (arith, elem-keys h s)

not_has-Above : (k : Hash) (s : HashSet) → Above k s → has k s ≡ false
unfolding find
not_has-Above k [] a = refl
not_has-Above k ((j, _) ∷ s) a = ground (arith, not_has-Above k s a.1)

distinct-keys : (s : HashSet) → IsSorted s → all_distinct (keys s) ≡ true
distinct-keys [] h = refl
distinct-keys ((k, _) ∷ s) h =
    ground (arith, elem-keys k s, not_has-Above k s h.0, distinct-keys s h.1)

has-set : (k h : Hash) (s : HashSet) → has h (set k tt s) ≡ (k == h || has h s)
has-set k h s = ground (arith, find-set k h tt s)

has-erase : (k h : Hash) (s : HashSet) → has h (erase k s) ≡ (not (k == h) && has h s)
has-erase k h s = ground (arith, find-erase k h s)

-- Distinct hashes that the table does not have are inserted.
insert_memrepo_ok :
    (hs : List Hash) (table : HashSet)
    → all_distinct hs ≡ true
    → ((h : Hash) → elem h hs ≡ true → has h table ≡ false)
    → (table' : HashSet) × (insert_memrepo hs table ≡ ok table')
      × ((h : Hash) → has h table' ≡ (has h table || elem h hs))
unfolding insert_memrepo
insert_memrepo_ok [] table d f = (table, refl, λ h. ground arith)
insert_memrepo_ok (k ∷ hs) table d f =
    let free : has k table ≡ false = f k (ground arith) in
    let (table', runs, at) =
      insert_memrepo_ok hs (set k tt table) (ground (arith, d))
        (λ h e. ground (arith, has-set k h table, f h, d)) in
    (table', rw free runs, λ h. ground (arith, at h, has-set k h table))

-- Distinct hashes that the table has are deleted, and counted.
delete_memrepo_ok :
    (hs : List Hash) (table : HashSet)
    → all_distinct hs ≡ true
    → ((h : Hash) → elem h hs ≡ true → has h table ≡ true)
    → ((delete_memrepo hs table).1 ≡ length hs)
      × ((h : Hash) → has h (delete_memrepo hs table).0 ≡ (has h table && not (elem h hs)))
unfolding delete_memrepo
delete_memrepo_ok [] table d f = (refl, λ h. ground arith)
delete_memrepo_ok (k ∷ hs) table d f =
    let (count, at) =
      delete_memrepo_ok hs (erase k table) (ground (arith, d))
        (λ h e. ground (arith, has-erase k h table, f h, d)) in
    (ground (arith, count, f k), λ h. ground (arith, at h, has-erase k h table))

delete_batch_ok :
    (hs : List Hash) (table : HashSet)
    → all_distinct hs ≡ true
    → ((h : Hash) → elem h hs ≡ true → has h table ≡ true)
    → (table' : HashSet) × (delete_batch hs table ≡ ok table')
      × ((h : Hash) → has h table' ≡ (has h table && not (elem h hs)))
unfolding delete_batch
delete_batch_ok hs table d f =
    let (count, at) = delete_memrepo_ok hs table d f in
    ((delete_memrepo hs table).0, ground (arith, count), at)

pub distinct-append :
    (xs ys : List Hash)
    → all_distinct (xs ++ ys) ≡ true
    → (all_distinct xs ≡ true)
      × (all_distinct ys ≡ true)
      × ((h : Hash) → elem h ys ≡ true → elem h xs ≡ false)
distinct-append [] ys d = (refl, d, λ h e. refl)
distinct-append (x ∷ xs) ys d =
    let (dx, dy, apart) = distinct-append xs ys (ground (arith, d)) in
    (
      ground (arith, d, dx, elem-append x xs ys),
      dy,
      λ h e. ground (arith, d, apart h e, elem-append x xs ys, elem-append h xs ys),
    )

delete_batches_ok :
    (max : ℕ) (batch hs : List Hash) (table : HashSet)
    → all_distinct (batch ++ hs) ≡ true
    → ((h : Hash) → elem h (batch ++ hs) ≡ true → has h table ≡ true)
    → (table' : HashSet) × (delete_batches max batch hs table ≡ ok table')
      × ((h : Hash) → has h table' ≡ (has h table && not (elem h (batch ++ hs))))
unfolding delete_batches
delete_batches_ok max batch [] table d f =
    rw append-nil (delete_batch_ok batch table (rw append-nil at d) (rw append-nil at f))
delete_batches_ok max batch (k ∷ hs) table d f =
    let batch' = batch ++ k ∷ [] in
    let same : batch' ++ hs ≡ batch ++ k ∷ hs = append_assoc batch (k ∷ []) hs in
    let d' : all_distinct (batch' ++ hs) ≡ true = rw same d in
    let f' : (h : Hash) → elem h (batch' ++ hs) ≡ true → has h table ≡ true = rw same f in
    let (dx, dy, apart) = distinct-append batch' hs d' in
    elim (Bool-cases (ltb max (length batch'))) [
      | inl flush ↦
          let (t1, runs, at) =
            delete_batch_ok batch' table dx
              (λ h e. f' h (ground (arith, e, elem-append h batch' hs))) in
          let (t2, runs2, at2) =
            delete_batches_ok max [] hs t1 dy
              (λ h e. ground (arith, at h, apart h e, f' h, elem-append h batch' hs)) in
          (
            t2,
            rw (flush, delete_batches) (rw (runs, runs2)),
            λ h. rw (← same) (ground (arith, at h, at2 h, elem-append h batch' hs)),
          )
      | inr keep ↦
          let (t2, runs, at) = delete_batches_ok max batch' hs table d' f' in
          (t2, rw (keep, delete_batches) runs, λ h. rw (← same) (at h))
    ]

-- the repository with nothing held back
abbrev pub cleaned : MemTxRepository → MemTxRepository
cleaned m = record m { unsync_txs_insert = []; unsync_txs_delete = [] }

-- Where the pending inserts and deletes account for the difference between the pool and the
-- table, writing them throws nothing, the table then has the hashes of the pool and no other,
-- and nothing is pending.
pub sync_to_db_ok :
    (m : MemTxRepository) (db : Db)
    → Tracks m db.memrepo_txs
    → (table : HashSet) × (sync_to_db m db ≡ ok (cleaned m, record db { memrepo_txs = table }))
      × ((h : Hash) → has h table ≡ is_exist m h)
unfolding sync_to_db
sync_to_db_ok m db t =
    let ins = keys m.unsync_txs_insert in
    let dels = keys m.unsync_txs_delete in
    let (t1, inserts, at1) =
      insert_memrepo_ok ins db.memrepo_txs (distinct-keys m.unsync_txs_insert t.inserts_sorted)
        (λ h e. t.fresh h (ground (arith, e, elem-keys h m.unsync_txs_insert))) in
    let (t2, deletes, at2) =
      delete_batches_ok 5000 [] dels t1 (distinct-keys m.unsync_txs_delete t.deletes_sorted) (λ h e.
        ground (
          arith,
          e,
          at1 h,
          t.known h,
          elem-keys h m.unsync_txs_insert,
          elem-keys h m.unsync_txs_delete,
        )) in
    (
      t2,
      rw (inserts, deletes),
      λ h. ground (
        arith,
        at1 h,
        at2 h,
        t.at h,
        elem-keys h m.unsync_txs_insert,
        elem-keys h m.unsync_txs_delete,
      ),
    )
