-- ===== src/Log2Producer/RawBlocks.antt =====
-- insertRawBlock (jiexi/src/Util.cc): the block that a hash names.
use explorer_kv.Prelude.{
  ℕ, true, none, some, List, [], ◌∷◌, ◌++◌, ◌≡◌, refl, ap, inl, inr, arith, ◌==◌, ==_iff,
  Option-cases, Bool-cases, subst,
}
use explorer_kv.Prelude.Int.{ℤ, beq_ℤ, beq_ℤ_iff}
use explorer_kv.Prelude.Result.{ok, ok-injective}
use explorer_kv.Transaction.{Hash, Block}
use explorer_kv.Log2Producer.Tables.{Db, RawBlock, find_raw_block, bump_chain_ids, insert_raw_block}

-- Moving the chain ids up makes no hash appear.
find_raw_block-bumped :
    (h : Hash) (height : ℤ) (bs : List RawBlock) (r : RawBlock)
    → find_raw_block h bs ≡ none
    → (r.block.hash == h) ≡ true
    → find_raw_block h (bump_chain_ids height bs ++ r ∷ []) ≡ some r
unfolding find_raw_block bump_chain_ids
find_raw_block-bumped h height [] r gone same = rw same refl
find_raw_block-bumped h height (b ∷ bs) r gone same = elim (Bool-cases (b.block.hash == h)) [
  | inl here ↦ absurd (ground (arith, here))
  | inr other ↦ elim (Bool-cases (beq_ℤ b.block_height height)) [
    | inl level ↦ rw level (rw other (find_raw_block-bumped h height bs r (rw other at gone) same))
    | inr apart ↦ rw apart (rw other (find_raw_block-bumped h height bs r (rw other at gone) same))
  ]
]

-- what the id of a stored block leads to
pub record IsStored (db : Db) (blk : Block) (height : ℤ) (id : ℕ) : Type 0 where
  pub row : RawBlock
  pub found : find_raw_block blk.hash db.raw_blocks ≡ some row
  pub same_id : row.id ≡ id
  pub same_height : row.block_height ≡ height

stored :
    (db db' : Db) (blk : Block) (height : ℤ) (id : ℕ)
    → insert_raw_block db blk height ≡ ok (db', id)
    → IsStored db' blk height id
unfolding insert_raw_block
stored db db' blk height id h = elim (Option-cases (find_raw_block blk.hash db.raw_blocks)) [
  | inr (b, found) ↦
      let e = rw (found, insert_raw_block) at h in
      elim (Bool-cases (beq_ℤ b.block_height height)) [
        | inl level ↦
            let same : (db, b.id) ≡ (db', id) = ok-injective (rw level at e) in
            subst (λ (x : Db × ℕ). IsStored x.0 blk height x.1) same
              (record {
                row = b;
                found = found;
                same_id = refl;
                same_height = (beq_ℤ_iff b.block_height height).0 level;
              })
        | inr apart ↦ absurd (let bad = rw apart at e in cc)
      ]
  | inl gone ↦
      subst (λ (x : Db × ℕ). IsStored x.0 blk height x.1)
        (ok-injective (rw (gone, insert_raw_block) at h))
        (record {
          row = record { id = db.next_block_id; block = blk; block_height = height; chain_id = 0 };
          found =
              find_raw_block-bumped blk.hash height db.raw_blocks _ gone
                ((==_iff blk.hash blk.hash).1 refl);
          same_id = refl;
          same_height = refl;
        })
]

-- When a block is inserted, looking up its hash finds a row with the id returned and the height
-- given, and inserting it again returns the same id and changes nothing.
pub insert_raw_block-IsStored :
    (db db' : Db) (blk : Block) (height : ℤ) (id : ℕ)
    → insert_raw_block db blk height ≡ ok (db', id)
    → IsStored db' blk height id × (insert_raw_block db' blk height ≡ ok (db', id))
unfolding insert_raw_block
insert_raw_block-IsStored db db' blk height id h =
    let s = stored db db' blk height id h in
    let level = (beq_ℤ_iff s.row.block_height height).1 s.same_height in
    (s, rw (s.found, insert_raw_block) (rw level (ap (λ n. ok (db', n)) s.same_id)))
