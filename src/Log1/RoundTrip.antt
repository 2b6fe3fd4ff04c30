-- ===== src/Log1/RoundTrip.antt =====
-- What writeLog1Tx and writeLog1Block format, and Log1::parse and the getters take apart.
use explorer_kv.Prelude.{
  true, false, some, [], ◌∷◌, ◌++◌, ◌≡◌, ◌≢◌, ◌⊎◌, inl, inr, refl, ap, ◌∙◌, arith, elem,
  elem-append, length, length-append, take, drop, subst, leb,
}
use explorer_kv.Prelude.Int.{ℤ, pos, negsuc}
use explorer_kv.Prelude.Result.{ok}
use explorer_kv.Transaction.{Hash, Tx, Block}
use explorer_kv.Log1.{
  Text, comma, bar, newline, Codec, ItemType, item_code, Log1, split, split_all, parse, get_tx,
  get_block, log_line, tx_line, block_line,
}
use explorer_kv.Log1.Split.{
  split_all-piece, split_all-whole, take-append, drop-append, same_text_refl,
}

-- The text of a field: some characters, none of them a delimiter.
pub record IsField (s : Text) : Type 0 where
  pub some_text : s ≢ []
  pub no_comma : elem comma s ≡ false
  pub no_bar : elem bar s ≡ false
  pub no_newline : elem newline s ≡ false

-- What the C library and the Bitcoin sources promise: %d is read back by atoi, a hash prints as 64
-- digits, an encoded object decodes to itself, and all print without delimiters.
pub record IsCodec (c : Codec) : Type 0 where
  pub atoi-show_int : (z : ℤ) → c.atoi (c.show_int z) ≡ z
  pub decode_tx-encode_tx : (tx : Tx) → c.decode_tx (c.encode_tx tx) ≡ some tx
  pub decode_block-encode_block : (blk : Block) → c.decode_block (c.encode_block blk) ≡ some blk
  pub length-hash_text : (h : Hash) → length (c.hash_text h) ≡ 64
  pub date_field : IsField c.date
  pub int_field : (z : ℤ) → IsField (c.show_int z)
  pub hash_field : (h : Hash) → IsField (c.hash_text h)
  pub tx_field : (tx : Tx) → IsField (c.encode_tx tx)
  pub block_field : (blk : Block) → IsField (c.encode_block blk)

append_some : (s t : Text) → s ≢ [] → s ++ t ≢ []
append_some [] t h e = absurd (h refl)
append_some (x ∷ s) t h e = cc

-- A field, a bar and more: neither empty nor with a comma.
no_comma-bar : (s t : Text) → IsField s → elem comma t ≡ false → elem comma (s ++ bar ∷ t) ≡ false
no_comma-bar s t f h = ground (arith, elem-append comma s (bar ∷ t), f.no_comma)

module _ (c : Codec) (l : IsCodec c) where
  split-log_line :
      (type : ItemType) (line : Text)
      → line ≢ []
      → elem comma line ≡ false
      → split 3 comma (log_line c type line) ≡ c.date ∷ c.show_int (item_code type) ∷ line ∷ []
  unfolding split log_line
  split-log_line type line some_line h =
      let code = c.show_int (item_code type) in
      ap (take 3) (
        split_all-piece comma c.date (code ++ (comma ∷ line)) l.date_field.no_comma
        ∙ ap (λ r. c.date ∷ r)
            (split_all-piece comma code line (l.int_field (item_code type)).no_comma
              ∙ ap (λ r. code ∷ r) (split_all-whole comma line some_line h)))

  split-two : (a b : Text) → IsField a → IsField b → split_all bar (a ++ bar ∷ b) ≡ a ∷ b ∷ []
  split-two a b fa fb =
      split_all-piece bar a b fa.no_bar
      ∙ ap (λ r. a ∷ r) (split_all-whole bar b fb.some_text fb.no_bar)

  -- The content of an item is the hash and the encoding.
  content_of :
      (h : Hash) (hex : Text)
      → (drop 64 (c.hash_text h ++ hex) ≡ hex)
        × (take 64 (c.hash_text h ++ hex) ≡ c.hash_text h)
        × (leb 64 (length (c.hash_text h ++ hex)) ≡ true)
  content_of h hex = (
    subst (λ n. drop n (c.hash_text h ++ hex) ≡ hex) (l.length-hash_text h)
        (drop-append (c.hash_text h) hex),
    subst (λ n. take n (c.hash_text h ++ hex) ≡ c.hash_text h) (l.length-hash_text h)
        (take-append (c.hash_text h) hex),
    ground (arith, length-append (c.hash_text h) hex, l.length-hash_text h),
  )

  -- For a codec that keeps its promises, a line written for an accepted or a removed
  -- transaction parses as an item of that type, from which the transaction is read back.
  pub parse-tx_line :
      (type : ItemType) (tx : Tx)
      → (type ≡ ItemType.accept_tx) ⊎ (type ≡ ItemType.remove_tx)
      → (item : Log1) × (parse c (tx_line c type tx) ≡ ok item)
        × (item.type ≡ item_code type)
        × (get_tx c item ≡ ok tx)
  unfolding parse tx_line item_code get_tx
  parse-tx_line type tx which =
      let hash = c.hash_text tx.hash in
      let hex = c.encode_tx tx in
      let hash_ok = l.hash_field tx.hash in
      let hex_ok = l.tx_field tx in
      let cut =
        split-log_line type (hash ++ (bar ∷ hex)) (append_some hash _ hash_ok.some_text)
          (no_comma-bar hash hex hash_ok hex_ok.no_comma) in
      let two = split-two hash hex hash_ok hex_ok in
      let code = l.atoi-show_int (item_code type) in
      let (dropped, taken, long) = content_of tx.hash hex in
      (
        record { type = item_code type; block_height = negsuc 0; content = hash ++ hex },
        rw (cut, parse)
            (rw (code, parse)
              (elim which [
                | inl e ↦ rw e (rw (two, parse) refl)
                | inr e ↦ rw e (rw (two, parse) refl)
              ])),
        refl,
        rw (long, get_tx)
            (rw (dropped, l.decode_tx-encode_tx tx) (rw (taken, same_text_refl hash) refl)),
      )

  -- For a codec that keeps its promises, a line written for a block parses as a block item of
  -- its height, from which the block is read back.
  pub parse-block_line :
      (height : ℤ) (blk : Block)
      → (item : Log1) × (parse c (block_line c height blk) ≡ ok item)
        × (item.type ≡ item_code ItemType.block)
        × (item.block_height ≡ height)
        × (get_block c item ≡ ok blk)
  unfolding parse block_line item_code get_block
  parse-block_line height blk =
      let number = c.show_int height in
      let hash = c.hash_text blk.hash in
      let hex = c.encode_block blk in
      let number_ok = l.int_field height in
      let hash_ok = l.hash_field blk.hash in
      let hex_ok = l.block_field blk in
      let cut =
        split-log_line ItemType.block (number ++ (bar ∷ (hash ++ (bar ∷ hex))))
          (append_some number _ number_ok.some_text)
          (no_comma-bar number (hash ++ (bar ∷ hex)) number_ok
            (no_comma-bar hash hex hash_ok hex_ok.no_comma)) in
      let three =
        split_all-piece bar number (hash ++ (bar ∷ hex)) number_ok.no_bar
        ∙ ap (λ r. number ∷ r) (split-two hash hex hash_ok hex_ok) in
      let code = l.atoi-show_int (pos 1) in
      let (dropped, taken, long) = content_of blk.hash hex in
      (
        record { type = pos 1; block_height = height; content = hash ++ hex },
        rw (cut, parse)
            (rw (code, parse)
              (rw (three, parse)
                (ap (λ z. ok (record { type = pos 1; block_height = z; content = hash ++ hex }))
                  (l.atoi-show_int height)))),
        refl,
        refl,
        rw (long, get_block)
            (rw (dropped, l.decode_block-encode_block blk) (rw (taken, same_text_refl hash) refl)),
      )

  -- For a codec that keeps its promises, the line written to clear the pool, which ends in an
  -- empty field, parses as an item of that type without content.
  parse-log_line :
      parse c (log_line c ItemType.clear_memtxs [])
      ≡ ok
          (record { type = item_code ItemType.clear_memtxs; block_height = negsuc 0; content = [] })
  unfolding parse log_line split split_all
  parse-log_line =
      let code = c.show_int (item_code ItemType.clear_memtxs) in
      let cut : split_all comma (c.date ++ (comma ∷ (code ++ (comma ∷ [])))) ≡ c.date ∷ code ∷ [] =
        split_all-piece comma c.date (code ++ (comma ∷ [])) l.date_field.no_comma
        ∙ ap (λ r. c.date ∷ r)
            (split_all-piece comma code []
              (l.int_field (item_code ItemType.clear_memtxs)).no_comma) in
      let same = l.atoi-show_int (item_code ItemType.clear_memtxs) in
      rw (cut, parse) (rw (same, parse) (unfold item_code in refl))
