-- ===== src/Log2Producer/Rollback/Rows.antt =====
-- The rows of handleBlockRollback against the ledger.
use explorer_kv.Prelude.{List, [], ◌∷◌, ◌≡◌, refl, arith, elem, All, map, if◌then◌else◌}
use explorer_kv.Prelude.Int.{negsuc}
use explorer_kv.Transaction.{Hash, Tx}
use explorer_kv.TxLogs2.{Row, LogType, Status, Ledger, after, replay, IsLegal}
use explorer_kv.Log2Producer.Commit.{AreOpen}
use explorer_kv.Log2Producer.Rollback.{hashes, Apart, AllApart}

module _ (row : Hash → Row) (type : (h : Hash) → (row h).type ≡ LogType.unconfirm)
    (named : (h : Hash) → (row h).tx_hash ≡ h) where
  abbrev pub back_rows : List Tx → List Row
  back_rows = map (λ (tx : Tx). row tx.hash)

  still_confirmed :
      (s : Ledger) (tx : Tx) (txs : List Tx)
      → All (Apart tx) txs
      → All (λ (u : Tx). s u.hash ≡ Status.confirmed) txs
      → All
          (λ (u : Tx). after s (row tx.hash).type (row tx.hash).tx_hash u.hash ≡ Status.confirmed)
          txs
  still_confirmed s tx [] apart c = tt
  still_confirmed s tx (u ∷ txs) (first, apart) (c, cs) =
      (ground (arith, named tx.hash, first.hashes, c), still_confirmed s tx txs apart cs)

  pub back_rows-IsLegal :
      (txs : List Tx) (s : Ledger)
      → AllApart txs
      → All (λ (tx : Tx). s tx.hash ≡ Status.confirmed) txs
      → IsLegal s (back_rows txs)
  back_rows-IsLegal [] s apart c = tt
  back_rows-IsLegal (tx ∷ txs) s (first, apart) (c, cs) = (
    ground (arith, named tx.hash, type tx.hash, c),
    back_rows-IsLegal txs _ apart (still_confirmed s tx txs first cs),
  )

  pub replay-back_rows :
      (txs : List Tx) (s : Ledger) (h : Hash)
      → replay s (back_rows txs) h ≡ (if elem h (hashes txs) then Status.unconfirmed else s h)
  unfolding replay
  replay-back_rows [] s h = refl
  replay-back_rows (tx ∷ txs) s h = ground (
    arith,
    replay-back_rows txs (after s (row tx.hash).type (row tx.hash).tx_hash) h,
    named tx.hash,
    type tx.hash,
  )

  pub back_rows-AreOpen :
      ((h : Hash) → (row h).batch_id ≡ negsuc 0) → (txs : List Tx) → AreOpen (back_rows txs)
  back_rows-AreOpen open_rows [] = tt
  back_rows-AreOpen open_rows (tx ∷ txs) = (open_rows tx.hash, back_rows-AreOpen open_rows txs)
