-- ===== src/NotifyLog.antt =====
-- jiexi/src/NotifyLog.{h,cc}, NotifyItem: a notification as a line of text, which tparser writes and
-- tnotify reads.
pub mod RoundTrip
pub mod Subscriptions
use explorer_kv.Prelude.{
  ℕ, Bool, true, false, [], ◌∷◌, ◌++◌, if◌then◌else◌, leb, ◌==◌, ◌-◌, ◌%◌, length, take,
}
use explorer_kv.Prelude.Int.{ℤ, pos, negsuc}
use explorer_kv.Prelude.Result.{Result, ok, assertion, ◌>>=◌, ◌>>◌, guard}
use explorer_kv.Transaction.{Hash}
use explorer_kv.Log1.{Text, comma, Codec, split, piece}

-- What the code takes from the C library beside Codec: atoll and %lld, the date of a time by
-- gmtime_r and strftime with its reading by strptime and timegm, and a uint256 of its digits.
pub record NotifyCodec : Type 0 where
  pub codec : Codec
  pub atoll : Text → ℤ
  pub show_long : ℤ → Text
  pub date : ℕ → Text
  pub str2time : Text → ℤ
  pub hash_of : Text → Hash

-- `address` is the text in the array of 36 characters up to its end.
pub record NotifyItem : Type 0 where
  pub timestamp : ℕ
  pub type : ℤ
  pub height : ℤ
  pub amount : ℤ
  pub hash : Hash
  pub address : Text

-- the conversion to uint32_t
unfoldable pub to_uint32 : ℤ → ℕ
to_uint32 (pos n) = n % 4294967296
to_uint32 (negsuc n) = 4294967295 - n % 4294967296

-- the text before the first NUL
unfoldable pub c_str : Text → Text
c_str [] = []
c_str (k ∷ s) = let rest = c_str s in if k == 0 then [] else k ∷ rest

-- snprintf(address_, sizeof(address_), "%s", address.c_str())
unfoldable pub to_address : Text → Text
unfolding c_str
to_address s = take 35 (c_str s)

abbrev between : ℕ → ℕ → ℤ → Bool
between low high (pos n) = if leb low n then leb n high else false
between low high (negsuc n) = false

unfoldable pub is_tx_event : ℤ → Bool
is_tx_event type = between 20 23 type

unfoldable pub is_block_event : ℤ → Bool
is_block_event type = between 10 11 type

-- NotifyItem::reset, which leaves the time
unfoldable pub reset : NotifyItem → NotifyItem
reset item = record {
  timestamp = item.timestamp;
  type = negsuc 0;
  height = negsuc 0;
  amount = pos 0;
  hash = 0;
  address = [];
}

-- NotifyItem::loadtx and NotifyItem::loadblock, at the time `now`
unfoldable pub load_tx : ℤ → ℤ → Text → Hash → ℤ → ℤ → NotifyItem → NotifyItem
load_tx now type address hash height amount item = record {
  timestamp = to_uint32 now;
  type = type;
  height = height;
  amount = amount;
  hash = hash;
  address = to_address address;
}

unfoldable pub load_block : ℤ → ℤ → Hash → ℤ → NotifyItem → NotifyItem
unfolding reset
load_block now type hash height item = record {
  timestamp = to_uint32 now;
  type = type;
  height = height;
  amount = (reset item).amount;
  hash = hash;
  address = (reset item).address;
}

-- a call of loadtx or of loadblock
pub data Event : Type 0 where
  tx : ℤ → Text → Hash → ℤ → ℤ → Event
  block : ℤ → Hash → ℤ → Event

abbrev pub load : ℤ → Event → NotifyItem → NotifyItem
load now (tx type address hash height amount) item =
    load_tx now type address hash height amount item
load now (block type hash height) item = load_block now type hash height item

-- NotifyItem::toStr
unfoldable pub to_str : NotifyCodec → NotifyItem → Text
to_str c item =
    if is_tx_event item.type
    then c.date item.timestamp
      ++ (comma
          ∷ (c.codec.show_int item.type
              ++ (comma
                  ∷ (item.address
                      ++ (comma
                          ∷ (c.codec.show_int item.height
                              ++ (comma
                                  ∷ (c.codec.hash_text item.hash
                                      ++ (comma ∷ c.show_long item.amount)))))))))
    else if is_block_event item.type
    then c.date item.timestamp
      ++ (comma
          ∷ (c.codec.show_int item.type
              ++ (comma ∷ (c.codec.show_int item.height ++ (comma ∷ c.codec.hash_text item.hash)))))
    else []

-- NotifyItem::parse: whether it succeeded, and the item
unfoldable pub parse : NotifyCodec → Text → NotifyItem → Result (Bool × NotifyItem)
parse c line old = do
  let item = reset old
  let arr = split 6 comma line
  time ← piece arr 0
  let timestamp = to_uint32 (c.str2time time)
  code ← piece arr 1
  let type = c.codec.atoi code
  if is_tx_event type
      then (do
        guard (length arr == 6) assertion
        address ← piece arr 2
        height ← piece arr 3
        hash ← piece arr 4
        amount ← piece arr 5
        ok (
          true,
          record {
            timestamp = timestamp;
            type = type;
            height = c.codec.atoi height;
            amount = c.atoll amount;
            hash = c.hash_of hash;
            address = to_address address;
          },
        ))
      else if is_block_event type
      then (do
        guard (length arr == 4) assertion
        height ← piece arr 2
        hash ← piece arr 3
        ok (
          true,
          record {
            timestamp = timestamp;
            type = type;
            height = c.codec.atoi height;
            amount = item.amount;
            hash = c.hash_of hash;
            address = item.address;
          },
        ))
      else ok (
        false,
        record {
          timestamp = timestamp;
          type = type;
          height = item.height;
          amount = item.amount;
          hash = item.hash;
          address = item.address;
        },
      )
