-- ===== src/Log1.antt =====
-- jiexi/src/Log1Producer.{h,cc}, Log1: an item of log0 and log1 as a line of text, and the `split` of
-- jiexi/src/Util.cc that takes it apart. Characters are their codes.
pub mod Split
pub mod RoundTrip
use explorer_kv.Prelude.{
  ℕ, Bool, true, false, Option, none, some, List, [], ◌∷◌, ◌++◌, if◌then◌else◌, leb, ◌==◌, length,
  take, drop,
}
use explorer_kv.Prelude.Int.{ℤ, pos, negsuc, beq_ℤ}
use explorer_kv.Prelude.Result.{
  Result, ok, err, exception, assertion, unmodelled, ◌>>=◌, ◌>>◌, guard,
}
use explorer_kv.Transaction.{Hash, Tx, Block}

abbrev pub Text : Type 0
Text = List ℕ

abbrev pub comma : ℕ
comma = 44

abbrev pub bar : ℕ
bar = 124

abbrev pub newline : ℕ
newline = 10

-- What the code takes from the C library and from the Bitcoin sources: atoi and %d, the date,
-- uint256::ToString, EncodeHexTx with DecodeHexTx, the hex of a serialised block with DecodeHexBlk.
pub record Codec : Type 0 where
  pub atoi : Text → ℤ
  pub show_int : ℤ → Text
  pub date : Text
  pub hash_text : Hash → Text
  pub encode_tx : Tx → Text
  pub decode_tx : Text → Option Tx
  pub encode_block : Block → Text
  pub decode_block : Text → Option Block

-- The pieces between the delimiters, as `getline` gives them: the end of the text starts no piece.
unfoldable pub split_all : ℕ → Text → List Text
split_all delim [] = []
split_all delim (c ∷ s) =
    let rest = split_all delim s in
    if c == delim
    then [] ∷ rest
    else elim rest [ [] ↦ (c ∷ []) ∷ [] | item ∷ items ↦ (c ∷ item) ∷ items ]

-- split(s, delim, limit), for a limit of 1 or more
unfoldable pub split : ℕ → ℕ → Text → List Text
split limit delim s = take limit (split_all delim s)

-- `arr[i]`
abbrev pub piece : List Text → ℕ → Result Text
piece items i = elim (drop i items) [ [] ↦ err unmodelled | s ∷ _ ↦ ok s ]

pub data ItemType : Type 0 where
  block accept_tx clear_memtxs remove_tx : ItemType

unfoldable pub item_code : ItemType → ℤ
item_code block = pos 1
item_code accept_tx = pos 2
item_code clear_memtxs = pos 3
item_code remove_tx = pos 4

pub record Log1 : Type 0 where
  pub type : ℤ
  pub block_height : ℤ
  pub content : Text

abbrev pub is_type : ItemType → Log1 → Bool
is_type t item = beq_ℤ item.type (item_code t)

-- Log1::parse
unfoldable pub parse : Codec → Text → Result Log1
unfolding split item_code
parse c line = do
  let arr1 = split 3 comma line
  t ← piece arr1 1
  let type = c.atoi t
  if beq_ℤ type (item_code ItemType.clear_memtxs)
      then ok (record { type = type; block_height = negsuc 0; content = [] })
      else do
        rest ← piece arr1 2
        let arr2 = split_all bar rest
        if beq_ℤ type (item_code ItemType.block)
            then (do
              guard (length arr2 == 3) assertion
              height ← piece arr2 0
              hash ← piece arr2 1
              hex ← piece arr2 2
              ok (record { type = type; block_height = c.atoi height; content = hash ++ hex }))
            else if beq_ℤ type (item_code ItemType.accept_tx)
            then (do
              guard (length arr2 == 2) assertion
              hash ← piece arr2 0
              hex ← piece arr2 1
              ok (record { type = type; block_height = negsuc 0; content = hash ++ hex }))
            else if beq_ℤ type (item_code ItemType.remove_tx)
            then (do
              guard (length arr2 == 2) assertion
              hash ← piece arr2 0
              hex ← piece arr2 1
              ok (record { type = type; block_height = negsuc 0; content = hash ++ hex }))
            else err exception

abbrev pub same_text : Text → Text → Bool
same_text [] [] = true
same_text [] (b ∷ t) = false
same_text (a ∷ s) [] = false
same_text (a ∷ s) (b ∷ t) = let rest = same_text s t in if a == b then rest else false

-- Log1::getBlock and Log1::getTx: `substr(64)` throws on a shorter content
unfoldable pub get_block : Codec → Log1 → Result Block
get_block c item = do
  guard (leb 64 (length item.content)) exception
  elim (c.decode_block (drop 64 item.content)) [
    | none ↦ err exception
    | some blk ↦ do
      guard (same_text (c.hash_text blk.hash) (take 64 item.content)) exception
      ok blk
  ]

unfoldable pub get_tx : Codec → Log1 → Result Tx
get_tx c item = do
  guard (leb 64 (length item.content)) exception
  elim (c.decode_tx (drop 64 item.content)) [
    | none ↦ err exception
    | some tx ↦ do guard (same_text (c.hash_text tx.hash) (take 64 item.content)) exception; ok tx
  ]

-- the line that writeLog1 formats, without its end, for the two callers
unfoldable pub log_line : Codec → ItemType → Text → Text
log_line c type line = c.date ++ (comma ∷ (c.show_int (item_code type) ++ (comma ∷ line)))

unfoldable pub tx_line : Codec → ItemType → Tx → Text
unfolding log_line
tx_line c type tx = log_line c type (c.hash_text tx.hash ++ (bar ∷ c.encode_tx tx))

unfoldable pub block_line : Codec → ℤ → Block → Text
unfolding log_line
block_line c height blk =
    log_line c ItemType.block
      (c.show_int height ++ (bar ∷ (c.hash_text blk.hash ++ (bar ∷ c.encode_block blk))))
