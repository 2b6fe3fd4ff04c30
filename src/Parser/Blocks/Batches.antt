-- ===== src/Parser/Blocks/Batches.antt =====
-- jiexi/src/Parser.cc, _insertBlockTxs: what stands under key 12_ of a block.
use explorer_kv.Prelude.{
  ℕ, zero, suc, ◌+◌, ◌*◌, ◌/◌, ◌%◌, ◌<◌, ◌≤◌, some, List, [], ◌∷◌, ◌++◌, ◌≡◌, ◌≢◌, refl, sym, ap,
  ◌∙◌, arith, length, length-append, ◌==◌, inl, inr, Bool-cases, ==_iff, append_assoc, append-nil,
}
use explorer_kv.Transaction.{Hash}
use explorer_kv.OrdMap.{Map, find, set}
use explorer_kv.OrdMap.Order.{nat_ord}
use explorer_kv.OrdMap.Laws.{find-set}
use explorer_kv.Parser.Kvdb.{CTransaction, Kvdb}
use explorer_kv.Parser.Blocks.{CBlock, last_batch, insert_batches, insert_block_txs, or_empty}

-- the hashes of the transactions of a block
abbrev pub hashes : List CTransaction → List Hash
hashes [] = []
hashes (tx ∷ vtx) = tx.hash ∷ hashes vtx

-- the first `count` batches, one after the other
unfoldable pub read_batches : ℕ → Map ℕ (List Hash) → List Hash
read_batches zero m = []
read_batches (suc count) m = read_batches count m ++ or_empty (find count m)

read_batches-set :
    (count k : ℕ) (value : List Hash) (m : Map ℕ (List Hash))
    → count ≤ k
    → read_batches count (set k value m) ≡ read_batches count m
unfolding read_batches
read_batches-set zero k value m past = refl
read_batches-set (suc count) k value m past =
    let rest : read_batches count (set k value m) ≡ read_batches count m =
      read_batches-set count k value m (omega arith) in
    let here : find count (set k value m) ≡ find count m =
      ground (arith, find-set k count value m) in
    rw (rest, here) refl

read_last :
    (q : ℕ) (value : List Hash) (m : Map ℕ (List Hash))
    → read_batches (suc q) (set q value m) ≡ read_batches q m ++ value
unfolding read_batches
read_last q value m =
    let rest : read_batches q (set q value m) ≡ read_batches q m =
      read_batches-set q q value m (omega arith) in
    let here : find q (set q value m) ≡ some value = ground (arith, find-set q q value m) in
    rw (rest, here) refl

-- how many batches of 500 there are for so many hashes
abbrev pub batch_count : ℕ → ℕ
batch_count n = (n + 499) / 500

last_batch-read :
    (i q : ℕ) (value : List Hash) (m : Map ℕ (List Hash))
    → i ≡ q * 500 + length value
    → length value < 500
    → read_batches (batch_count i) (last_batch (i / 500) value m) ≡ read_batches q m ++ value
unfolding last_batch
last_batch-read i q [] m at small =
    let count : batch_count i ≡ q = omega (arith, at) in
    ap (λ n. read_batches n m) count ∙ sym (append-nil (read_batches q m))
last_batch-read i q (h ∷ value) m at small =
    let count : batch_count i ≡ suc q = omega (arith, at, small) in
    let place : i / 500 ≡ q = omega (arith, at, small) in
    ap (λ n. read_batches n (set (i / 500) (h ∷ value) m)) count
    ∙ ap (λ n. read_batches (suc q) (set n (h ∷ value) m)) place
    ∙ read_last q (h ∷ value) m

insert_batches-read :
    (i q : ℕ) (value : List Hash) (vtx : List CTransaction) (m : Map ℕ (List Hash))
    → i ≡ q * 500 + length value
    → length value < 500
    → read_batches (batch_count (i + length vtx)) (insert_batches 500 i value vtx m)
      ≡ read_batches q m ++ (value ++ hashes vtx)
unfolding insert_batches
insert_batches-read i q value [] m at small =
    let whole : i + 0 ≡ i = omega arith in
    ap (λ n. read_batches (batch_count n) (last_batch (i / 500) value m)) whole
    ∙ last_batch-read i q value m at small
    ∙ ap (λ x. read_batches q m ++ x) (sym (append-nil value))
insert_batches-read i q value (tx ∷ vtx) m at small = elim (Bool-cases (suc i % 500 == 0)) [
  | inl full ↦
      let size : length (value ++ tx.hash ∷ []) ≡ 500 =
        omega
          (arith, length-append value (tx.hash ∷ []), at, small, (==_iff (suc i % 500) 0).0 full) in
      let place : i / 500 ≡ q = omega (arith, at, small) in
      let next : i + suc (length vtx) ≡ suc i + length vtx = omega arith in
      let rest : read_batches (batch_count (suc i + length vtx))
            (insert_batches 500 (suc i) [] vtx (set (i / 500) (value ++ tx.hash ∷ []) m))
          ≡ read_batches (suc q) (set (i / 500) (value ++ tx.hash ∷ []) m) ++ hashes vtx =
        insert_batches-read (suc i) (suc q) [] vtx (set (i / 500) (value ++ tx.hash ∷ []) m)
          (omega (arith, at, size, length-append value (tx.hash ∷ []))) (omega arith) in
      let written : read_batches (suc q) (set (i / 500) (value ++ tx.hash ∷ []) m)
          ≡ read_batches q m ++ (value ++ tx.hash ∷ []) =
        ap (λ n. read_batches (suc q) (set n (value ++ tx.hash ∷ []) m)) place
        ∙ read_last q (value ++ tx.hash ∷ []) m in
      rw (full) (
        ap
          (λ n.
            read_batches (batch_count n)
              (insert_batches 500 (suc i) [] vtx (set (i / 500) (value ++ tx.hash ∷ []) m)))
          next
        ∙ rest
        ∙ ap (λ x. x ++ hashes vtx) written
        ∙ append_assoc (read_batches q m) (value ++ tx.hash ∷ []) (hashes vtx)
        ∙ ap (λ x. read_batches q m ++ x) (append_assoc value (tx.hash ∷ []) (hashes vtx)))
  | inr more ↦
      let next : i + suc (length vtx) ≡ suc i + length vtx = omega arith in
      let apart : suc i % 500 ≢ 0 = ground (arith, more) in
      let rest : read_batches (batch_count (suc i + length vtx))
            (insert_batches 500 (suc i) (value ++ tx.hash ∷ []) vtx m)
          ≡ read_batches q m ++ ((value ++ tx.hash ∷ []) ++ hashes vtx) =
        insert_batches-read (suc i) q (value ++ tx.hash ∷ []) vtx m
          (omega (arith, at, length-append value (tx.hash ∷ [])))
          (omega (arith, at, small, apart, length-append value (tx.hash ∷ []))) in
      rw (more) (
        ap
          (λ n.
            read_batches (batch_count n) (insert_batches 500 (suc i) (value ++ tx.hash ∷ []) vtx m))
          next
        ∙ rest
        ∙ ap (λ x. read_batches q m ++ x) (append_assoc value (tx.hash ∷ []) (hashes vtx)))
]

-- The batches of 500 hashes that are written under a block, read one after the other, are the
-- hashes of all its transactions in their order, whatever stood there before, which is
-- overwritten.
pub insert_block_txs-read :
    (blk : CBlock) (k : Kvdb)
    → read_batches
        (batch_count (length blk.vtx))
        (or_empty (find blk.hash (insert_block_txs blk k).block_txs))
      ≡ hashes blk.vtx
unfolding insert_block_txs read_batches
insert_block_txs-read blk k =
    let there : find blk.hash (
          set blk.hash (insert_batches 500 0 [] blk.vtx (or_empty (find blk.hash k.block_txs)))
            k.block_txs)
        ≡ some (insert_batches 500 0 [] blk.vtx (or_empty (find blk.hash k.block_txs))) =
      ground (
        arith,
        find-set blk.hash blk.hash
            (insert_batches 500 0 [] blk.vtx (or_empty (find blk.hash k.block_txs))) k.block_txs,
      ) in
    let none_before : length blk.vtx ≡ 0 + length blk.vtx = omega arith in
    ap (λ x. read_batches (batch_count (length blk.vtx)) (or_empty x)) there
    ∙ ap
        (λ n.
          read_batches (batch_count n)
            (insert_batches 500 0 [] blk.vtx (or_empty (find blk.hash k.block_txs))))
        none_before
    ∙ insert_batches-read 0 0 [] blk.vtx (or_empty (find blk.hash k.block_txs)) (omega arith)
        (omega arith)
