-- ===== src/Log2Producer/Run/Resume.antt =====
-- updateLog1FileStatus and syncLog1 (jiexi/src/Log2Producer.cc): the place of log1 that is stored in
-- the transaction of an item, and read at the next start.
use explorer_kv.Prelude.{
  ℕ, [], Option, none, some, ◌≡◌, refl, sym, ap, ◌∙◌, arith, subst, if◌then◌else◌,
}
use explorer_kv.Prelude.Result.{ok, >>=-eq-ok, ok-injective}
use explorer_kv.MemTxRepository.{MemTxRepository}
use explorer_kv.Log2Producer.{Log2Producer, finish, update_log1_file_status, differs}
use explorer_kv.Log2Producer.Tables.{Db, sync_to_db, insert_memrepo, delete_batches, keys}
use explorer_kv.Log2Producer.Run.{sync_log1}

-- What the static variables say was written is what the table has.
pub record IsWritten (p : Log2Producer) (db : Db) : Type 0 where
  pub index : (n : ℕ) → p.written_index ≡ some n → db.log1file_index ≡ n
  pub offset : (n : ℕ) → p.written_offset ≡ some n → db.log1file_offset ≡ n

-- the value after an update that is left out where the old value is known to be there
updated :
    (known : Option ℕ) (new old : ℕ)
    → ((n : ℕ) → known ≡ some n → old ≡ n)
    → (if differs known new then new else old) ≡ new
updated none new old h = refl
updated (some k) new old h = ground (arith, h k refl)

sync_to_db-place :
    (m m' : MemTxRepository) (db db' : Db)
    → sync_to_db m db ≡ ok (m', db')
    → (db'.log1file_index ≡ db.log1file_index) × (db'.log1file_offset ≡ db.log1file_offset)
unfolding sync_to_db
sync_to_db-place m m' db db' h =
    let (inserted, _, rest) =
      >>=-eq-ok (insert_memrepo (keys m.unsync_txs_insert) db.memrepo_txs) _ h in
    let (table, _, done) =
      >>=-eq-ok (delete_batches 5000 [] (keys m.unsync_txs_delete) inserted) _ rest in
    let same = ok-injective done in
    (
      sym (ap (λ (x : MemTxRepository × Db). x.1.log1file_index) same),
      sym (ap (λ (x : MemTxRepository × Db). x.1.log1file_offset) same),
    )

-- Where what the producer remembers to have written is what the table has, a transaction that
-- ends stores the place of its item, from which the next start reads, and what is remembered is
-- again what the table has.
pub finish-IsWritten :
    (p p' : Log2Producer) (m : MemTxRepository) (db : Db)
    → IsWritten p db
    → finish p m db ≡ ok p'
    → (sync_log1 p'.db
        ≡ record { file_index = p.log1_file_index; file_offset = p.curr_log1_file_offset })
      × IsWritten p' p'.db
unfolding finish update_log1_file_status sync_log1
finish-IsWritten p p' m db w h =
    let ((m1, db1), syncs, done) = >>=-eq-ok (sync_to_db m db) _ h in
    let (index, offset) = sync_to_db-place m m1 db db1 syncs in
    let at_index =
      updated p.written_index p.log1_file_index db1.log1file_index (λ n e. index ∙ w.index n e) in
    let at_offset =
      updated p.written_offset p.curr_log1_file_offset db1.log1file_offset
        (λ n e. offset ∙ w.offset n e) in
    let q = update_log1_file_status (record p { mem_repo = m1 }) db1 in
    subst
      (λ (x : Log2Producer).
        (sync_log1 x.db
          ≡ record { file_index = p.log1_file_index; file_offset = p.curr_log1_file_offset })
        × IsWritten x x.db)
      (ok-injective done)
      (
        rw (at_index, at_offset) refl,
        record { index = λ n e. at_index ∙ some_same e; offset = λ n e. at_offset ∙ some_same e },
      )
  where
    some_same : {k n : ℕ} → some k ≡ some n → k ≡ n
    some_same e = cc
