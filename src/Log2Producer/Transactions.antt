-- ===== src/Log2Producer/Transactions.antt =====
-- handleTxAccept and handleTxReject (jiexi/src/Log2Producer.cc), from a sound producer.
use explorer_kv.Prelude.{
  ℕ, suc, true, false, not, ◌&&◌, ◌||◌, some, List, [], ◌∷◌, ◌++◌, append-nil, ◌≡◌, refl, sym, ap,
  ◌∙◌, inl, inr, arith, ◌==◌, length, elem, Bool-cases, Option-cases, subst,
}
use explorer_kv.Prelude.Int.{ℤ, pos}
use explorer_kv.Prelude.Result.{ok}
use explorer_kv.Transaction.{Hash, Tx}
use explorer_kv.OrdMap.{find, has}
use explorer_kv.OrdMap.Order.{nat_ord}
use explorer_kv.MemTxRepository.{MemTxRepository, size, is_exist, has_conflict}
use explorer_kv.MemTxRepository.Invariant.{IsSpendable, Added, add_tx-Added}
use explorer_kv.MemTxRepository.Ends.{Descends}
use explorer_kv.MemTxRepository.Unsynced.{HashSet, Tracks, Tracks-Added}
use explorer_kv.MemTxRepository.Removal.{Drained, remove_tx_and_child_tx_fuel}
use explorer_kv.BlockTimestamp.{get_max_timestamp}
use explorer_kv.TxLogs2.{Row, LogType, Status, Ledger, replay, reject_rows}
use explorer_kv.TxLogs2.Lifecycle.{Coheres, replay-append, IsLegal-append}
use explorer_kv.Log2Producer.{
  Log2Producer, handle_tx_accept, handle_tx_reject, commit_batch, accept_row, append_rows,
}
use explorer_kv.Log2Producer.Conflicts.{refused}
use explorer_kv.Log2Producer.Tables.{Db, next_batch_id, insert_raw_tx}
use explorer_kv.Log2Producer.Commit.{
  Sound, AreOpen, AreSettled-append, with_batch, next_batch_id-AreSettled, finish-Sound,
  commit_batch-Sound,
}

pub AreOpen-reject_rows : (hs : List Hash) → AreOpen (reject_rows hs)
AreOpen-reject_rows [] = tt
AreOpen-reject_rows (h ∷ hs) = (refl, AreOpen-reject_rows hs)

pub length-reject_rows : (hs : List Hash) → length (reject_rows hs) ≡ length hs
length-reject_rows [] = refl
length-reject_rows (h ∷ hs) = ap suc (length-reject_rows hs)

pub has_none : (set : HashSet) (h : Hash) → set ≡ [] → has h set ≡ false
unfolding find
has_none set h e = ap (has h) e

-- An accept adds the transaction to what the log left unconfirmed.
Coheres-accept :
    {rank : Hash → ℕ} (l : Ledger) (m m' : MemTxRepository) (tx : Tx) (row : Row)
    → Coheres l m
    → Added rank m tx m'
    → row.type ≡ LogType.accept
    → row.tx_hash ≡ tx.hash
    → Coheres (replay l (row ∷ [])) m'
unfolding replay
Coheres-accept l m m' tx row c a type hash = record {
  at = λ h. ground (arith, c.at h, a.txs h, type, hash);
}

module _ (rank : Hash → ℕ) (s : Ledger) (p : Log2Producer) (sound : Sound rank s p) where
  accept_added :
      (tx : Tx)
      → IsSpendable rank tx
      → is_exist p.mem_repo tx.hash ≡ false
      → replay s p.db.txlogs2 tx.hash ≡ Status.absent
      → has_conflict p.mem_repo.spent_outputs tx.vin ≡ false
      → (p' : Log2Producer) × (handle_tx_accept p tx ≡ ok p')
        × Sound rank s p'
        × ((h : Hash) → is_exist p'.mem_repo h ≡ (tx.hash == h || is_exist p.mem_repo h))
  unfolding handle_tx_accept
  accept_added tx good fresh unknown free =
      let (m, adds, a) = add_tx-Added rank p.mem_repo sound.inv tx good fresh free in
      let log = p.db.txlogs2 in
      let row = accept_row (next_batch_id log) (get_max_timestamp p.blk_ts) tx.hash in
      let t =
        Tracks-Added rank p.mem_repo m sound.inv p.db.memrepo_txs sound.tracks tx a fresh
          (has_none p.mem_repo.unsync_txs_delete tx.hash sound.nothing_deleted) in
      let db = append_rows (insert_raw_tx p.db tx) (row ∷ []) in
      let (p', runs, sound', kept, txs) =
        finish-Sound rank s p m db a.inv' t
          (AreSettled-append log (row ∷ []) sound.settled
            (next_batch_id-AreSettled log sound.settled, tt))
          (IsLegal-append s log (row ∷ []) sound.legal (unknown, tt))
          (subst (λ l. Coheres l m) (sym (replay-append s log (row ∷ [])))
            (Coheres-accept (replay s log) p.mem_repo m tx row sound.coheres a refl refl)) in
      (p', rw (fresh, adds) runs, sound', λ h. ground (arith, ap (has h) txs, a.txs h))

  -- From a sound producer, for a spendable transaction that the log counts as absent unless the
  -- pool holds it, the accept handler always returns a sound producer, whose pool has the
  -- transaction besides what it had, unless an input was spent already.
  pub handle_tx_accept-Sound :
      (tx : Tx)
      → IsSpendable rank tx
      → (is_exist p.mem_repo tx.hash ≡ false → replay s p.db.txlogs2 tx.hash ≡ Status.absent)
      → (p' : Log2Producer) × (handle_tx_accept p tx ≡ ok p')
        × Sound rank s p'
        × ((h : Hash)
            → is_exist p'.mem_repo h ≡ (
                is_exist p.mem_repo h
                || tx.hash == h && not (has_conflict p.mem_repo.spent_outputs tx.vin)))
  handle_tx_accept-Sound tx good unknown = elim (Bool-cases (is_exist p.mem_repo tx.hash)) [
    | inl there ↦ (p, unfold handle_tx_accept in rw there, sound, λ h. ground (arith, there))
    | inr fresh ↦ elim (Bool-cases (has_conflict p.mem_repo.spent_outputs tx.vin)) [
      | inl blocked ↦ (
        p,
        unfold handle_tx_accept in rw (fresh, refused rank p.mem_repo tx good fresh blocked),
        sound,
        λ h. ground (arith, blocked),
      )
      | inr free ↦
          let (p', runs, sound', at) = accept_added tx good fresh (unknown fresh) free in
          (p', runs, sound', λ h. ground (arith, at h, free))
    ]
  ]

  -- The transactions `hs` left the repository and are logged as rejected in one batch.
  pub record Rejected (hs : List Hash) (p' : Log2Producer) : Type 0 where
    pub sound' : Sound rank s p'
    pub gone : (h : Hash) → is_exist p'.mem_repo h ≡ (is_exist p.mem_repo h && not (elem h hs))
    pub log : (b : ℤ) × (p'.db.txlogs2 ≡ p.db.txlogs2 ++ with_batch b (reject_rows hs))

  pub reject_batch :
      (m : MemTxRepository) (db : Db) (hs : List Hash)
      → Drained rank p.mem_repo hs m
      → db.txlogs2 ≡ p.db.txlogs2 ++ reject_rows hs
      → db.memrepo_txs ≡ p.db.memrepo_txs
      → (p' : Log2Producer) × (commit_batch p m db (length hs) ≡ ok p')
        × Rejected hs p'
        × (p'.mem_repo.txs ≡ m.txs)
  reject_batch m db hs d log table =
      let l = replay s p.db.txlogs2 in
      let (legal, coheres) = d.legal l sound.coheres in
      let t = subst (Tracks m) (sym table) (d.tracks p.db.memrepo_txs sound.tracks) in
      let (p', runs, sound', log', txs) =
        commit_batch-Sound rank s p m db p.db.txlogs2 (reject_rows hs) log sound.settled
          (AreOpen-reject_rows hs) d.inv' t sound.legal legal coheres in
      (
        p',
        subst (λ n. commit_batch p m db n ≡ ok p') (length-reject_rows hs) runs,
        record {
          sound' = sound';
          gone = λ h. ground (arith, ap (has h) txs, d.txs h);
          log = (next_batch_id db.txlogs2, log');
        },
        txs,
      )

  -- From a sound producer, for a transaction that is what the pool holds under its hash, if
  -- anything, the reject handler always returns a sound producer without it; what left with it
  -- descends from it and is logged as rejected in one batch.
  pub handle_tx_reject-Rejected :
      (tx : Tx)
      → ((t : Tx) → find tx.hash p.mem_repo.txs ≡ some t → t ≡ tx)
      → (p' : Log2Producer) × (hs : List Hash) × (handle_tx_reject p tx ≡ ok p')
        × Rejected hs p'
        × (is_exist p'.mem_repo tx.hash ≡ false)
        × ((h : Hash) → elem h hs ≡ true → Descends p.mem_repo tx.hash h)
  handle_tx_reject-Rejected tx same = elim (Option-cases (find tx.hash p.mem_repo.txs)) [
    | inl missing ↦ (
      p,
      [],
      unfold handle_tx_reject in rw missing,
      record {
        sound' = sound;
        gone = λ h. ground arith;
        log = (pos 0, sym (append-nil p.db.txlogs2));
      },
      rw missing,
      λ h e. cc,
    )
    | inr (t, there) ↦
        let at : find tx.hash p.mem_repo.txs ≡ some tx = there ∙ ap some (same t there) in
        let (m, hs, removes, pruned) =
          remove_tx_and_child_tx_fuel rank (suc (size p.mem_repo)) p.mem_repo tx sound.inv at
            (omega arith) in
        let db = append_rows (insert_raw_tx p.db tx) (reject_rows hs) in
        let (p', commits, r, txs) =
          reject_batch m db hs pruned.drained (unfold append_rows insert_raw_tx in refl)
            (unfold append_rows insert_raw_tx in refl) in
        (
          p',
          hs,
          unfold handle_tx_reject in rw (at, removes) commits,
          r,
          ground (arith, r.gone tx.hash, pruned.self),
          pruned.descends,
        )
  ]
