-- ===== src/Log2Producer/Rollback/Sound.antt =====
-- handleBlockRollback leaves a sound producer.
use explorer_kv.Prelude.{
  ℕ, suc, true, false, not, some, List, [], ◌∷◌, ◌++◌, ◌&&◌, ◌||◌, ◌≡◌, ◌≢◌, refl, sym, ap, ◌∙◌,
  inl, inr, arith, ◌==◌, ==_iff, elem, All, map, reverse, Option-cases, List-cases, subst,
}
use explorer_kv.Prelude.Int.{ℤ, beq_ℤ_iff}
use explorer_kv.Prelude.Result.{ok, >>=-ok}
use explorer_kv.Transaction.{Hash, Tx, Block}
use explorer_kv.OrdMap.{has, erase_last}
use explorer_kv.OrdMap.Order.{nat_ord}
use explorer_kv.MemTxRepository.{MemTxRepository, is_exist}
use explorer_kv.MemTxRepository.Unsynced.{Tracks}
use explorer_kv.BlockTimestamp.{BlockTimestamp, get_max_timestamp, pop_block, max_from}
use explorer_kv.TxLogs2.{Row, LogType, Status, Ledger, replay, is_unconfirmed}
use explorer_kv.TxLogs2.Lifecycle.{Coheres, replay-append, IsLegal-append}
use explorer_kv.Log2Producer.{Log2Producer, append_rows, block_row}
use explorer_kv.Log2Producer.Tables.{
  Db, RawBlock, find_raw_block, bump_chain_ids, insert_raw_block, next_batch_id,
}
use explorer_kv.Log2Producer.Commit.{Sound, AreOpen, with_batch, commit_batch-Sound}
use explorer_kv.Log2Producer.Blocks.{first_hash, handle_block_rollback}
use explorer_kv.Log2Producer.Rollback.{hashes, CanReturn, AllApart}
use explorer_kv.Log2Producer.Rollback.Readd.{re_add-Returned}
use explorer_kv.Log2Producer.Rollback.Rows.{
  back_rows, back_rows-IsLegal, replay-back_rows, back_rows-AreOpen,
}

-- A block that is stored at its height, or not stored, is stored without a change to the log or to
-- the table of the pool.
insert_raw_block_keeps :
    (db : Db) (blk : Block) (height : ℤ)
    → ((b : RawBlock) → find_raw_block blk.hash db.raw_blocks ≡ some b → b.block_height ≡ height)
    → (db' : Db) × (id : ℕ) × (insert_raw_block db blk height ≡ ok (db', id))
      × (db'.txlogs2 ≡ db.txlogs2)
      × (db'.memrepo_txs ≡ db.memrepo_txs)
unfolding insert_raw_block
insert_raw_block_keeps db blk height level =
    elim (Option-cases (find_raw_block blk.hash db.raw_blocks)) [
      | inl gone ↦ (
        record db {
          raw_blocks =
              bump_chain_ids height db.raw_blocks
              ++ record { id = db.next_block_id; block = blk; block_height = height; chain_id = 0 }
                ∷ [];
          next_block_id = suc db.next_block_id;
        },
        db.next_block_id,
        rw (gone, insert_raw_block) refl,
        refl,
        refl,
      )
      | inr (b, found) ↦
          let same = (beq_ℤ_iff b.block_height height).1 (level b found) in
          (db, b.id, rw (found, insert_raw_block) (rw same refl), refl, refl)
    ]

pop_block_runs :
    (b : BlockTimestamp) → b.blk_timestamps ≢ [] → (b' : BlockTimestamp) × (pop_block b ≡ ok b')
unfolding pop_block
pop_block_runs b some_block = elim (List-cases b.blk_timestamps) [
  | inl empty ↦ absurd (some_block empty)
  | inr (e, m, there) ↦ (
    record b { curr_max = max_from 0 (erase_last (e ∷ m)); blk_timestamps = erase_last (e ∷ m) },
    rw (there, pop_block) refl,
  )
]

AreOpen-append : (xs ys : List Row) → AreOpen xs → AreOpen ys → AreOpen (xs ++ ys)
AreOpen-append [] ys hx hy = hy
AreOpen-append (x ∷ xs) ys hx hy = (hx.0, AreOpen-append xs ys hx.1 hy)

-- the last row, which rejects the coinbase
closing :
    (s : Ledger) (row : Row) {c : Hash}
    → row.type ≡ LogType.reject
    → row.tx_hash ≡ c
    → (h : Hash) → is_unconfirmed (replay s (row ∷ []) h) ≡ (not (c == h) && is_unconfirmed (s h))
unfolding replay
closing s row type named h = ground (arith, type, named)

-- what can come back is not in the pool
all_fresh :
    (rank : Hash → ℕ) (c : Hash) (m : MemTxRepository) (txs : List Tx) (h : Hash)
    → All (CanReturn rank c m) txs
    → elem h (hashes txs) ≡ true
    → is_exist m h ≡ false
all_fresh rank c m [] h can there = cc
all_fresh rank c m (tx ∷ txs) h (g, can) there =
    ground (arith, g.fresh, all_fresh rank c m txs h can, ==_iff tx.hash h)

-- The block is the last one of the chain: its transactions are confirmed, `c` is its coinbase, and
-- the others can come back to the pool.
pub record IsTopBlock (rank : Hash → ℕ) (s : Ledger) (p : Log2Producer) (height : ℤ) (blk : Block)
    (c : Hash) : Type 0 where
  pub first : first_hash blk.vtx ≡ ok c
  pub has_first : elem c (hashes (reverse blk.vtx)) ≡ true
  pub confirmed :
      All (λ (tx : Tx). replay s p.db.txlogs2 tx.hash ≡ Status.confirmed) (reverse blk.vtx)
  pub apart : AllApart (reverse blk.vtx)
  pub can_return : All (CanReturn rank c p.mem_repo) (reverse blk.vtx)
  pub level :
      (b : RawBlock) → find_raw_block blk.hash p.db.raw_blocks ≡ some b → b.block_height ≡ height
  pub stamped : p.blk_ts.blk_timestamps ≢ []

-- the rows of the rollback
abbrev pub rollback_rows : Log2Producer → ℤ → Block → Hash → ℕ → List Row
rollback_rows p height blk c id =
    let row =
      λ (type : LogType) (h : Hash). block_row type height id (get_max_timestamp p.blk_ts) h in
    map (λ (tx : Tx). row LogType.unconfirm tx.hash) (reverse blk.vtx) ++ row LogType.reject c ∷ []

module _ (rank : Hash → ℕ) (s : Ledger) (p : Log2Producer) (sound : Sound rank s p) (height : ℤ)
    (blk : Block) (c : Hash) where
  -- From a sound producer, rolling back the last block of the chain always returns a sound
  -- producer: the pool gains the transactions of the block but its coinbase, and one batch with
  -- one id behind the log unconfirms each transaction, the last one first, and then rejects the
  -- coinbase. The block's transactions are confirmed in the log and differ in their hashes and
  -- inputs; those that are no coinbase are spendable, and none is in the pool or spends what a
  -- transaction of the pool spends; the block is not stored at another height, and there is a
  -- timestamp to pop.
  pub handle_block_rollback-Sound :
      IsTopBlock rank s p height blk c
      → (p' : Log2Producer) × (id : ℕ) × (b : ℤ) × (handle_block_rollback p height blk ≡ ok p')
        × Sound rank s p'
        × (p'.db.txlogs2 ≡ p.db.txlogs2 ++ with_batch b (rollback_rows p height blk c id))
        × ((h : Hash)
            → is_exist p'.mem_repo h
              ≡ (is_exist p.mem_repo h || elem h (hashes (reverse blk.vtx)) && not (c == h)))
  unfolding handle_block_rollback append_rows block_row
  handle_block_rollback-Sound top =
      let back = reverse blk.vtx in
      let l = replay s p.db.txlogs2 in
      let (m, adds, r) =
        re_add-Returned rank c p.db.memrepo_txs back p.mem_repo sound.inv sound.tracks
          sound.nothing_deleted top.apart top.can_return in
      let (db, id, stores, log, table) = insert_raw_block_keeps p.db blk height top.level in
      let (ts, pops) = pop_block_runs p.blk_ts top.stamped in
      let row : Hash → Row =
        λ h. block_row LogType.unconfirm height id (get_max_timestamp p.blk_ts) h in
      let last = block_row LogType.reject height id (get_max_timestamp p.blk_ts) c in
      let rows = back_rows row (λ h. refl) (λ h. refl) back in
      let at = replay-back_rows row (λ h. refl) (λ h. refl) back l in
      let waits : replay l rows c ≡ Status.unconfirmed = at c ∙ rw top.has_first refl in
      let absent : is_exist p.mem_repo c ≡ false =
        all_fresh rank c p.mem_repo back c top.can_return top.has_first in
      let coheres : Coheres (replay l (rows ++ last ∷ [])) m = record {
        at = λ h.
            ap (λ (x : Ledger). is_unconfirmed (x h)) (replay-append l rows (last ∷ []))
            ∙ closing (replay l rows) last refl refl h
            ∙ ground (arith, at h, sound.coheres.at h, r.at h, absent, ==_iff c h);
      } in
      let (p', runs, sound', log', txs) =
        commit_batch-Sound rank s (record p { blk_ts = ts }) m (append_rows db (rows ++ last ∷ []))
          p.db.txlogs2 (rows ++ last ∷ []) (ap (λ x. x ++ (rows ++ last ∷ [])) log) sound.settled
          (AreOpen-append rows (last ∷ [])
            (back_rows-AreOpen row (λ h. refl) (λ h. refl) (λ h. refl) back) (refl, tt))
          r.inv' (subst (Tracks m) (sym table) r.tracks') sound.legal
          (IsLegal-append l rows (last ∷ [])
            (back_rows-IsLegal row (λ h. refl) (λ h. refl) back l top.apart top.confirmed)
            (waits, tt))
          coheres in
      (
        p',
        id,
        next_batch_id (append_rows db (rows ++ last ∷ [])).txlogs2,
        >>=-ok adds _ ∙ >>=-ok stores _ ∙ >>=-ok top.first _ ∙ >>=-ok pops _ ∙ runs,
        sound',
        log',
        λ h. ground (arith, ap (has h) txs, r.at h),
      )
