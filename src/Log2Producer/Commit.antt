-- ===== src/Log2Producer/Commit.antt =====
-- commitBatch (jiexi/src/Log2Producer.cc): the open rows of a batch get its id in one transaction, in
-- which the table of the memory pool follows too. `Sound` is the invariant between two items.
use explorer_kv.Prelude.{
  ℕ, false, some, List, [], ◌∷◌, ◌++◌, ◌≡◌, refl, sym, ap, ◌∙◌, inl, inr, arith, ==_iff, length,
  All, Option-cases, subst,
}
use explorer_kv.Prelude.Int.{ℤ, pos, negsuc, ltb_ℤ}
use explorer_kv.Prelude.Result.{ok}
use explorer_kv.Transaction.{Hash}
use explorer_kv.OrdMap.{find, has}
use explorer_kv.OrdMap.Order.{nat_ord}
use explorer_kv.MemTxRepository.{MemTxRepository, is_exist}
use explorer_kv.MemTxRepository.Invariant.{Inv}
use explorer_kv.MemTxRepository.Unsynced.{HashSet, Tracks}
use explorer_kv.TxLogs2.{Row, Ledger, replay, IsLegal, after}
use explorer_kv.TxLogs2.Lifecycle.{Coheres, replay-append, IsLegal-append}
use explorer_kv.Log2Producer.{Log2Producer, commit_batch, finish, update_log1_file_status}
use explorer_kv.Log2Producer.Tables.{Db, close_rows, next_batch_id, max_batch, is_open}
use explorer_kv.Log2Producer.Sync.{cleaned, sync_to_db_ok}

abbrev pub with_batch : ℤ → List Row → List Row
with_batch b [] = []
with_batch b (r ∷ rows) = record r { batch_id = b } ∷ with_batch b rows

-- committed rows, and the rows of an open batch
abbrev pub AreSettled : List Row → Type 0
AreSettled = All (λ r. ltb_ℤ r.batch_id (pos 0) ≡ false)

abbrev pub AreOpen : List Row → Type 0
AreOpen = All (λ r. r.batch_id ≡ negsuc 0)

replay-with_batch :
    (b : ℤ) (s : Ledger) (rows : List Row) → replay s (with_batch b rows) ≡ replay s rows
unfolding replay
replay-with_batch b s [] = refl
replay-with_batch b s (r ∷ rows) = replay-with_batch b (after s r.type r.tx_hash) rows

IsLegal-with_batch :
    (b : ℤ) (s : Ledger) (rows : List Row) → IsLegal s rows → IsLegal s (with_batch b rows)
IsLegal-with_batch b s [] l = tt
IsLegal-with_batch b s (r ∷ rows) l =
    (l.0, IsLegal-with_batch b (after s r.type r.tx_hash) rows l.1)

-- Only the open rows change, and they are counted.
close_rows-append :
    (b : ℤ) (old rows : List Row)
    → AreSettled old
    → AreOpen rows
    → close_rows b (old ++ rows) ≡ (old ++ with_batch b rows, length rows)
unfolding close_rows
close_rows-append b [] [] settled open_rows = refl
close_rows-append b [] (r ∷ rows) settled open_rows =
    rw (open_rows.0) (rw (close_rows-append b [] rows tt open_rows.1))
close_rows-append b (r ∷ old) rows settled open_rows =
    let shut : is_open r ≡ false = ground (arith, settled.0) in
    rw shut (rw (close_rows-append b old rows settled.1 open_rows))

pub AreSettled-append : (xs ys : List Row) → AreSettled xs → AreSettled ys → AreSettled (xs ++ ys)
AreSettled-append [] ys hx hy = hy
AreSettled-append (x ∷ xs) ys hx hy = (hx.0, AreSettled-append xs ys hx.1 hy)

AreSettled-with_batch :
    (b : ℤ) (rows : List Row) → ltb_ℤ b (pos 0) ≡ false → AreSettled (with_batch b rows)
AreSettled-with_batch b [] h = tt
AreSettled-with_batch b (r ∷ rows) h = (h, AreSettled-with_batch b rows h)

-- Ids from -1 on make the next id 0 or more.
abbrev AreFrom : List Row → Type 0
AreFrom = All (λ r. ltb_ℤ r.batch_id (negsuc 0) ≡ false)

AreFrom-settled : (rows : List Row) → AreSettled rows → AreFrom rows
AreFrom-settled [] s = tt
AreFrom-settled (r ∷ rows) s = (ground (arith, s.0), AreFrom-settled rows s.1)

AreFrom-append : (old rows : List Row) → AreSettled old → AreOpen rows → AreFrom (old ++ rows)
AreFrom-append [] [] s o = tt
AreFrom-append [] (r ∷ rows) s o = (ground (arith, o.0), AreFrom-append [] rows tt o.1)
AreFrom-append (r ∷ old) rows s o = (ground (arith, s.0), AreFrom-append old rows s.1 o)

max_batch_from :
    (rows : List Row) (b : ℤ) → AreFrom rows → max_batch rows ≡ some b → ltb_ℤ b (negsuc 0) ≡ false
unfolding max_batch
max_batch_from [] b f e = cc
max_batch_from (r ∷ rows) b f e = elim (Option-cases (max_batch rows)) [
  | inl none_left ↦ ground (arith, none_left, f.0)
  | inr (c, found) ↦ ground (arith, found, f.0, max_batch_from rows c f.1 found)
]

next_batch_id_settled :
    (rows : List Row) → AreFrom rows → ltb_ℤ (next_batch_id rows) (pos 0) ≡ false
unfolding next_batch_id
next_batch_id_settled rows f = elim (Option-cases (max_batch rows)) [
  | inl none_left ↦ rw (none_left, next_batch_id) (ground arith)
  | inr (c, found) ↦ rw (found, next_batch_id) (ground (arith, max_batch_from rows c f found))
]

-- A log of committed rows gets an id that is committed too.
pub next_batch_id-AreSettled :
    (rows : List Row) → AreSettled rows → ltb_ℤ (next_batch_id rows) (pos 0) ≡ false
next_batch_id-AreSettled rows s = next_batch_id_settled rows (AreFrom-settled rows s)

-- What holds of the producer between two items of log1, when the log began at the ledger `s`.
pub record Sound (rank : Hash → ℕ) (s : Ledger) (p : Log2Producer) : Type 0 where
  pub inv : Inv rank p.mem_repo
  pub tracks : Tracks p.mem_repo p.db.memrepo_txs
  pub nothing_deleted : p.mem_repo.unsync_txs_delete ≡ []
  -- 0_memrepo_txs names the transactions of the repository
  pub table : (h : Hash) → has h p.db.memrepo_txs ≡ is_exist p.mem_repo h
  pub settled : AreSettled p.db.txlogs2
  -- the log is legal, and leaves unconfirmed what the repository holds
  pub legal : IsLegal s p.db.txlogs2
  pub coheres : Coheres (replay s p.db.txlogs2) p.mem_repo

Tracks-cleaned :
    (m : MemTxRepository) (table : HashSet)
    → ((h : Hash) → has h table ≡ is_exist m h)
    → Tracks (cleaned m) table
unfolding find
Tracks-cleaned m table at = record {
  at = λ h. ground (arith, at h);
  fresh = λ h e. cc;
  known = λ h e. cc;
  inserts_sorted = tt;
  deletes_sorted = tt;
}

Inv-cleaned : (rank : Hash → ℕ) (m : MemTxRepository) → Inv rank m → Inv rank (cleaned m)
Inv-cleaned rank m inv = record {
  sorted = inv.sorted;
  keyed = inv.keyed;
  spendable = inv.spendable;
  sound = inv.sound;
  complete = inv.complete;
}

module _ (rank : Hash → ℕ) (s : Ledger) where
  -- The end of a transaction over a log that is legal and coheres with the repository.
  pub finish-Sound :
      (p : Log2Producer) (m : MemTxRepository) (db : Db)
      → Inv rank m
      → Tracks m db.memrepo_txs
      → AreSettled db.txlogs2
      → IsLegal s db.txlogs2
      → Coheres (replay s db.txlogs2) m
      → (p' : Log2Producer) × (finish p m db ≡ ok p')
        × Sound rank s p'
        × (p'.db.txlogs2 ≡ db.txlogs2)
        × (p'.mem_repo.txs ≡ m.txs)
  unfolding finish update_log1_file_status
  finish-Sound p m db inv tracks settled legal coheres =
      let (table, runs, at) = sync_to_db_ok m db tracks in
      (
        update_log1_file_status (record p { mem_repo = cleaned m })
            (record db { memrepo_txs = table }),
        rw runs,
        record {
          inv = Inv-cleaned rank m inv;
          tracks = Tracks-cleaned m table at;
          nothing_deleted = refl;
          table = at;
          settled = settled;
          legal = legal;
          coheres = record { at = coheres.at };
        },
        refl,
        refl,
      )

  -- Committing a batch of open rows that is legal after a settled legal log, with a well-formed
  -- pool that both together describe and whose pending changes account for its table, always
  -- returns a sound producer: all rows of the batch get the next batch id, and the older rows
  -- stay.
  pub commit_batch-Sound :
      (p : Log2Producer) (m : MemTxRepository) (db : Db) (old rows : List Row)
      → db.txlogs2 ≡ old ++ rows
      → AreSettled old
      → AreOpen rows
      → Inv rank m
      → Tracks m db.memrepo_txs
      → IsLegal s old
      → IsLegal (replay s old) rows
      → Coheres (replay (replay s old) rows) m
      → (p' : Log2Producer) × (commit_batch p m db (length rows) ≡ ok p')
        × Sound rank s p'
        × (p'.db.txlogs2 ≡ old ++ with_batch (next_batch_id db.txlogs2) rows)
        × (p'.mem_repo.txs ≡ m.txs)
  unfolding commit_batch
  commit_batch-Sound p m db old rows log settled open_rows inv tracks legal more coheres =
      let b = next_batch_id db.txlogs2 in
      let closed = old ++ with_batch b rows in
      let shut : close_rows b db.txlogs2 ≡ (closed, length rows) =
        ap (close_rows b) log ∙ close_rows-append b old rows settled open_rows in
      let counted = (==_iff (length rows) (length rows)).1 refl in
      let fine : ltb_ℤ b (pos 0) ≡ false =
        next_batch_id_settled db.txlogs2
          (subst AreFrom (sym log) (AreFrom-append old rows settled open_rows)) in
      let same : replay s closed ≡ replay (replay s old) rows =
        replay-append s old (with_batch b rows) ∙ replay-with_batch b (replay s old) rows in
      let (p', runs, sound, kept, txs) =
        finish-Sound p m (record db { txlogs2 = closed }) inv tracks
          (AreSettled-append old (with_batch b rows) settled (AreSettled-with_batch b rows fine))
          (IsLegal-append s old (with_batch b rows) legal
            (IsLegal-with_batch b (replay s old) rows more))
          (subst (λ l. Coheres l m) (sym same) coheres) in
      (p', rw (shut, commit_batch) (rw counted (ground (arith, runs))), sound, kept, txs)
