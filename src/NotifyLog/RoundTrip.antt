-- ===== src/NotifyLog/RoundTrip.antt =====
-- What NotifyItem::toStr prints and NotifyItem::parse takes apart.
use explorer_kv.Prelude.{
  ℕ, zero, suc, ◌<◌, true, false, List, [], ◌∷◌, ◌++◌, ◌≡◌, refl, ap, ◌∙◌, arith, elem, take,
}
use explorer_kv.Prelude.Int.{ℤ, pos, negsuc}
use explorer_kv.Prelude.Result.{ok}
use explorer_kv.Transaction.{Hash}
use explorer_kv.Log1.{Text, comma, split, split_all}
use explorer_kv.Log1.Split.{split_all-piece, split_all-whole}
use explorer_kv.Log1.RoundTrip.{IsField, IsCodec}
use explorer_kv.NotifyLog.{
  NotifyCodec, NotifyItem, to_uint32, c_str, to_address, is_tx_event, is_block_event, load_tx,
  load_block, Event, load, to_str, parse,
}

-- What the C library and the Bitcoin sources promise beside IsCodec: %lld is read back by atoll, the
-- date of a time by str2time, a hash by its digits, and all print without delimiters.
pub record IsNotifyCodec (c : NotifyCodec) : Type 0 where
  pub codec_ok : IsCodec c.codec
  pub atoll-show_long : (z : ℤ) → c.atoll (c.show_long z) ≡ z
  pub str2time-date : (t : ℕ) → t < 4294967296 → c.str2time (c.date t) ≡ pos t
  pub hash_of-hash_text : (h : Hash) → c.hash_of (c.codec.hash_text h) ≡ h
  pub long_field : (z : ℤ) → IsField (c.show_long z)
  pub date_field : (t : ℕ) → IsField (c.date t)

-- The text of an address is kept by a second copy into the array.
take-c_str : (n : ℕ) (s : Text) → take n (c_str (take n (c_str s))) ≡ take n (c_str s)
unfolding c_str
take-c_str zero s = refl
take-c_str (suc n) [] = refl
take-c_str (suc n) (k ∷ s) = ground (arith, take-c_str n s)

to_address_twice : (s : Text) → to_address (to_address s) ≡ to_address s
unfolding to_address
to_address_twice s = take-c_str 35 s

not_tx_event : (type : ℤ) → is_block_event type ≡ true → is_tx_event type ≡ false
unfolding is_block_event is_tx_event
not_tx_event (pos n) h = ground arith
not_tx_event (negsuc n) h = refl

no_comma-take : (n : ℕ) (s : Text) → elem comma s ≡ false → elem comma (take n (c_str s)) ≡ false
unfolding c_str
no_comma-take zero s h = refl
no_comma-take (suc n) [] h = refl
no_comma-take (suc n) (k ∷ s) h = ground (arith, no_comma-take n s)

to_uint32_lt : (z : ℤ) → to_uint32 z < 4294967296
unfolding to_uint32
to_uint32_lt (pos n) = omega arith
to_uint32_lt (negsuc n) = omega arith

to_uint32_pos : (n : ℕ) → n < 4294967296 → to_uint32 (pos n) ≡ n
unfolding to_uint32
to_uint32_pos n h = omega arith

-- Whose type is one of the kinds that toStr knows, with an address without a comma.
pub data IsEvent : Event → Type 0 where
  tx_event :
      {type : ℤ} {address : Text} {hash : Hash} {height amount : ℤ}
      → is_tx_event type ≡ true
      → elem comma address ≡ false
      → IsEvent (Event.tx type address hash height amount)
  block_event :
      {type : ℤ} {hash : Hash} {height : ℤ}
      → is_block_event type ≡ true
      → IsEvent (Event.block type hash height)

module _ (c : NotifyCodec) (l : IsNotifyCodec c) where
  -- a field, a comma, and a text of which the pieces are known
  piece_then :
      (p s : Text) {items : List Text}
      → elem comma p ≡ false
      → split_all comma s ≡ items
      → split_all comma (p ++ comma ∷ s) ≡ p ∷ items
  piece_then p s plain rest = split_all-piece comma p s plain ∙ ap (λ r. p ∷ r) rest

  int_then :
      (z : ℤ) (s : Text) {items : List Text}
      → split_all comma s ≡ items
      → split_all comma (c.codec.show_int z ++ comma ∷ s) ≡ c.codec.show_int z ∷ items
  int_then z s rest = piece_then _ s (l.codec_ok.int_field z).no_comma rest

  field_last : (s : Text) → IsField s → split_all comma s ≡ s ∷ []
  field_last s f = split_all-whole comma s f.some_text f.no_comma

  read_time : (z : ℤ) → to_uint32 (c.str2time (c.date (to_uint32 z))) ≡ to_uint32 z
  read_time z =
      ap to_uint32 (l.str2time-date (to_uint32 z) (to_uint32_lt z))
      ∙ to_uint32_pos (to_uint32 z) (to_uint32_lt z)

  split_all-to_str_tx :
      (item : NotifyItem)
      → is_tx_event item.type ≡ true
      → elem comma item.address ≡ false
      → split_all comma (to_str c item)
        ≡ c.date item.timestamp
          ∷ c.codec.show_int item.type
          ∷ item.address
          ∷ c.codec.show_int item.height
          ∷ c.codec.hash_text item.hash
          ∷ c.show_long item.amount
          ∷ []
  unfolding to_str
  split_all-to_str_tx item known plain = rw known (
      piece_then (c.date item.timestamp) _ (l.date_field item.timestamp).no_comma (
        int_then item.type _ (
          piece_then item.address _ plain (
            int_then item.height _ (
              piece_then (c.codec.hash_text item.hash) _ (l.codec_ok.hash_field item.hash).no_comma
                (field_last (c.show_long item.amount) (l.long_field item.amount)))))))

  split_all-to_str_block :
      (item : NotifyItem)
      → is_tx_event item.type ≡ false
      → is_block_event item.type ≡ true
      → split_all comma (to_str c item)
        ≡ c.date item.timestamp
          ∷ c.codec.show_int item.type
          ∷ c.codec.show_int item.height
          ∷ c.codec.hash_text item.hash
          ∷ []
  unfolding to_str
  split_all-to_str_block item other known = rw other (
      rw known (
        piece_then (c.date item.timestamp) _ (l.date_field item.timestamp).no_comma (
          int_then item.type _ (
            int_then item.height _
              (field_last (c.codec.hash_text item.hash) (l.codec_ok.hash_field item.hash))))))

  -- For a codec that keeps its promises, parsing the line of an item that loadtx or loadblock
  -- just filled, with a type of its kind and an address without a comma, succeeds and gives the
  -- item back, whatever the reader's item held before.
  pub parse-to_str :
      (now : ℤ) (event : Event) (item old : NotifyItem)
      → IsEvent event
      → parse c (to_str c (load now event item)) old ≡ ok (true, load now event item)
  unfolding split parse load_tx load_block to_address
  parse-to_str now _ item old (tx_event {type} {address} {hash} {height} {amount} known plain) =
      let cut =
        split_all-to_str_tx (load now (Event.tx type address hash height amount) item) known
          (no_comma-take 35 address plain) in
      rw (cut, parse)
        (rw (l.codec_ok.atoi-show_int type, parse)
          (rw known (
            rw
              (
                read_time now,
                l.codec_ok.atoi-show_int height,
                l.atoll-show_long amount,
                l.hash_of-hash_text hash,
                to_address_twice address,
              )
              refl)))
  parse-to_str now _ item old (block_event {type} {hash} {height} known) =
      let other = not_tx_event type known in
      let cut = split_all-to_str_block (load now (Event.block type hash height) item) other known in
      rw (cut, parse)
        (rw (l.codec_ok.atoi-show_int type, parse)
          (rw other (
            rw known (
              rw (read_time now, l.codec_ok.atoi-show_int height, l.hash_of-hash_text hash) refl))))
