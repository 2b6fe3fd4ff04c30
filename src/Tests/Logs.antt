-- ===== src/Tests/Logs.antt =====
-- Lines of log1 written and read, and log1producer on a chain of two blocks.
use explorer_kv.Prelude.{
  ◌<◌, false, none, [], ◌∷◌, ◌++◌, ◌≡◌, ◌≢◌, refl, ap, ◌∙◌, inr, arith, length, drop, All,
  if◌then◌else◌,
}
use explorer_kv.Prelude.Int.{pos, ltb_ℤ, beq_ℤ}
use explorer_kv.Prelude.Result.{ok, err, out_of_fuel}
use explorer_kv.Transaction.{Block}
use explorer_kv.OrdMap.{set, last?, erase_last}
use explorer_kv.OrdMap.Order.{int_ord}
use explorer_kv.BlockTimestamp.{trim}
use explorer_kv.Chain.{Chain, get_cur_height, get_cur_hash, push, forward, pop}
use explorer_kv.Log1.{
  Text, ItemType, item_code, Log1, parse, get_tx, get_block, tx_line, block_line,
}
use explorer_kv.Log1.RoundTrip.{parse-tx_line, parse-block_line}
use explorer_kv.LogFile.{read_lines}
use explorer_kv.LogFile.Reading.{unlines, IsLine, read_lines_whole}
use explorer_kv.Log1Producer.{
  Log1Producer, Bitcoind, write_log1, handle_line, handle_lines, load_lines, log_lines, sync_back,
  sync_forward,
}
use explorer_kv.Log1Producer.Rounds.{advance, sync_forward_fuel}
use explorer_kv.Log1Producer.Restart.{Kept, handle_lines-Kept, log_lines-write_log1}
use explorer_kv.Log1Producer.Catchup.{Agrees, sync_back-Agrees, sync_back_fuel, sync_forward-Kept}
use explorer_kv.Tests.Data.{first}
use explorer_kv.Tests.Encoding.{codec, codec-IsCodec}

parse-tx_line_example :
    (item : Log1) × (parse codec (tx_line codec ItemType.remove_tx first) ≡ ok item)
    × (item.type ≡ item_code ItemType.remove_tx)
    × (get_tx codec item ≡ ok first)
parse-tx_line_example = parse-tx_line codec codec-IsCodec ItemType.remove_tx first (inr refl)

abbrev fourth : Block
fourth = record { hash = 44; hash_prev_block = 33; block_time = 1000; vtx = first ∷ [] }

parse-block_line_example :
    (item : Log1) × (parse codec (block_line codec (pos 4) fourth) ≡ ok item)
    × (item.type ≡ item_code ItemType.block)
    × (item.block_height ≡ pos 4)
    × (get_block codec item ≡ ok fourth)
parse-block_line_example = parse-block_line codec codec-IsCodec (pos 4) fourth

-- two lines and the beginning of a third
abbrev three_lines : Text
three_lines = 50 ∷ 51 ∷ 10 ∷ 52 ∷ 10 ∷ 53 ∷ []

read_lines_whole_example :
    (three_lines
      ≡ unlines (read_lines 501 three_lines).0 ++ drop (read_lines 501 three_lines).1 three_lines)
    × All IsLine (read_lines 501 three_lines).0
    × (length (read_lines 501 three_lines).0 < 501
        → IsLine (drop (read_lines 501 three_lines).1 three_lines))
read_lines_whole_example = read_lines_whole 501 three_lines

abbrev short_chain : Chain
short_chain = record { limit = 5; blocks = (pos 2, 22) ∷ (pos 3, 33) ∷ [] }

abbrev long_chain : Chain
long_chain = record { limit = 5; blocks = (pos 2, 22) ∷ (pos 3, 33) ∷ (pos 4, 44) ∷ [] }

abbrev producer : Log1Producer
producer = record {
  chain = short_chain;
  log0 = record { file_index = 0; file_offset = 0 };
  log0_status = none;
  log1_file_index = none;
  closed = [];
  current = [];
}

producer-Kept : Kept codec short_chain producer
unfolding load_lines log_lines
producer-Kept = record {
  valid = record { nonempty = omega arith; consecutive = (refl, tt); short = omega arith };
  replays = refl;
}

takes_fourth : push short_chain (pos 4) 44 33 ≡ ok long_chain
unfolding push forward get_cur_height get_cur_hash last? set trim
takes_fourth = refl

abbrev after_fourth : Log1Producer
after_fourth =
    write_log1 1000 (block_line codec (pos 4) fourth) (record producer { chain = long_chain })

copies_fourth :
    handle_lines codec 1000 producer (block_line codec (pos 4) fourth ∷ []) ≡ ok after_fourth
unfolding handle_lines handle_line item_code
copies_fourth =
    let (item, parses, type, at, gets) = parse-block_line_example in
    rw (parses, handle_lines) (rw type (rw gets (rw at (rw takes_fourth refl))))

handle_lines-Kept_example : Kept codec short_chain after_fourth
handle_lines-Kept_example =
    handle_lines-Kept codec codec-IsCodec 1000 short_chain producer after_fourth
      (block_line codec (pos 4) fourth ∷ []) producer-Kept copies_fourth

-- bitcoind with the block 34 at height 3, and the blocks 22 and 44
abbrev bitcoind : Bitcoind
bitcoind = record {
  block_hash =
      λ height. ok (if beq_ℤ height (pos 2) then 22 else if beq_ℤ height (pos 3) then 34 else 44);
  block_of = λ hash. ok fourth;
}

abbrev back : Log1Producer
back =
    write_log1 1000 (block_line codec (pos 2) fourth)
      (record producer { chain = record { limit = 5; blocks = (pos 2, 22) ∷ [] } })

abbrev one_block : Chain
one_block = record { limit = 5; blocks = (pos 2, 22) ∷ [] }

heights : (get_cur_height one_block ≡ pos 2) × (get_cur_height long_chain ≡ pos 4)
unfolding get_cur_height last?
heights = (refl, refl)

hash_of_one : get_cur_hash one_block ≡ 22
unfolding get_cur_hash last?
hash_of_one = refl

stops : (p : Log1Producer) → p.chain ≡ one_block → sync_back codec 1000 bitcoind 2 p ≡ ok p
unfolding sync_back
stops p e =
    let height : get_cur_height p.chain ≡ pos 2 = ap get_cur_height e ∙ heights.0 in
    rw (height, sync_back) (rw (ap get_cur_hash e ∙ hash_of_one) (rw height refl))

goes_back : sync_back codec 1000 bitcoind 3 producer ≡ ok back
unfolding sync_back get_cur_height get_cur_hash last? pop erase_last
goes_back =
    stops back
      (log_lines-write_log1 1000 (block_line codec (pos 2) fourth)
        (record producer { chain = one_block })).1

sync_back-Agrees_example : Agrees bitcoind back.chain
sync_back-Agrees_example = sync_back-Agrees codec 1000 bitcoind 3 producer back goes_back

sync_back_fuel_example : sync_back codec 1000 bitcoind 3 producer ≢ err out_of_fuel
sync_back_fuel_example =
    sync_back_fuel codec 1000 bitcoind 3 producer (omega arith) (λ height e. cc) (λ hash e. cc)

arrived :
    (p : Log1Producer) → p.chain ≡ long_chain → sync_forward codec 1000 bitcoind 2 (pos 4) p ≡ ok p
unfolding sync_forward
arrived p e = rw (ap get_cur_height e ∙ heights.1, sync_forward) refl

goes_on : sync_forward codec 1000 bitcoind 3 (pos 4) producer ≡ ok after_fourth
unfolding sync_forward get_cur_height get_cur_hash last? push forward set trim
goes_on =
    arrived after_fourth
      (log_lines-write_log1 1000 (block_line codec (pos 4) fourth)
        (record producer { chain = long_chain })).1

sync_forward-Kept_example :
    Kept codec short_chain after_fourth
    × (ltb_ℤ (get_cur_height after_fourth.chain) (pos 4) ≡ false)
sync_forward-Kept_example =
    sync_forward-Kept codec codec-IsCodec 1000 bitcoind 3 (pos 4) short_chain producer after_fourth
      producer-Kept goes_on

three_up : ltb_ℤ (advance 3 (get_cur_height producer.chain)) (pos 4) ≡ false
unfolding advance get_cur_height last?
three_up = refl

sync_forward_fuel_example : sync_forward codec 1000 bitcoind 3 (pos 4) producer ≢ err out_of_fuel
sync_forward_fuel_example =
    sync_forward_fuel codec 1000 bitcoind 3 (pos 4) producer producer-Kept.valid three_up
      (λ height e. cc) (λ hash e. cc)
