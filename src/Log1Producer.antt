-- ===== src/Log1Producer.antt =====
-- jiexi/src/Log1Producer.{h,cc}, Log1Producer: it copies log0 to log1, checks that the blocks form a
-- chain, and brings log1 in line with bitcoind when log0 began anew. bitcoind is a parameter.
pub mod Restart
pub mod Catchup
pub mod Rounds
use explorer_kv.Prelude.{
  ℕ, zero, suc, ◌+◌, Bool, true, false, not, Option, none, some, List, [], ◌∷◌, ◌++◌, if◌then◌else◌,
  ltb, ◌==◌, length,
}
use explorer_kv.Prelude.Int.{ℤ, negsuc, succ, beq_ℤ, ltb_ℤ}
use explorer_kv.Prelude.Result.{
  Result, ok, err, exception, assertion, out_of_fuel, unmodelled, ◌>>=◌, ◌>>◌, guard,
}
use explorer_kv.Transaction.{Hash, Block}
use explorer_kv.Chain.{Chain, size, get_cur_height, get_cur_hash, push_first, push, pop}
use explorer_kv.Log1.{
  Text, Codec, ItemType, Log1, is_type, parse, get_block, get_tx, log_line, tx_line, block_line,
}
use explorer_kv.LogFile.{Files, Place, get_line, try_read_log0}

-- The log1 files are kept as their lines: `fwrite` writes a whole line or throws.
pub record Log1Producer : Type 0 where
  pub chain : Chain
  pub log0 : Place
  -- the status file
  pub log0_status : Option Place
  -- `none` for -1
  pub log1_file_index : Option ℕ
  -- the files that are full, and the one that is written
  pub closed : List (List Text)
  pub current : List Text

-- _bitcoind_getBlockHashByHeight and _bitcoind_getBlockByHash
pub record Bitcoind : Type 0 where
  pub block_hash : ℤ → Result Hash
  pub block_of : Hash → Result Block

-- ftell: each line has its end
abbrev bytes : List Text → ℕ
bytes [] = 0
bytes (line ∷ lines) = suc (length line) + bytes lines

-- writeLog1: a file that grows beyond `max` is closed
unfoldable pub write_log1 : ℕ → Text → Log1Producer → Log1Producer
write_log1 max line p =
    let index : ℕ = elim p.log1_file_index [ none ↦ 0 | some i ↦ i ] in
    let lines = p.current ++ line ∷ [] in
    if ltb max (bytes lines)
    then record p {
      log1_file_index = some (suc index);
      closed = p.closed ++ lines ∷ [];
      current = [];
    }
    else record p { log1_file_index = some index; current = lines }

-- one line of log0 in `run`
unfoldable pub handle_line : Codec → ℕ → Log1Producer → Text → Result Log1Producer
handle_line c max p line = do
  item ← parse c line
  if is_type ItemType.accept_tx item
      then (do tx ← get_tx c item; ok (write_log1 max (tx_line c ItemType.accept_tx tx) p))
      else if is_type ItemType.remove_tx item
      then (do tx ← get_tx c item; ok (write_log1 max (tx_line c ItemType.remove_tx tx) p))
      else if is_type ItemType.block item
      then (do
        blk ← get_block c item
        chain ← push p.chain item.block_height blk.hash blk.hash_prev_block
        ok (write_log1 max (block_line c item.block_height blk) (record p { chain = chain })))
      else err exception

unfoldable pub handle_lines : Codec → ℕ → Log1Producer → List Text → Result Log1Producer
handle_lines c max p [] = ok p
handle_lines c max p (line ∷ lines) = handle_line c max p line >>= λ p'. handle_lines c max p' lines

-- One round of `run`: read, copy, writeLog0IdxOffset. Without lines it waits.
unfoldable pub run_round :
    Codec → ℕ → ℕ → ℕ → ℕ → Files → Log1Producer → Result (Log1Producer × Files)
run_round c max keep begin_time last_begin_time files p = do
  (lines, at, files') ← try_read_log0 keep begin_time last_begin_time files p.log0
  let p1 = record p { log0 = at }
  elim lines [
    | [] ↦ ok (p1, files')
    | line ∷ more ↦ do
      p2 ← handle_lines c max p1 (line ∷ more)
      ok (record p2 { log0_status = some p2.log0 }, files')
  ]

-- initLog1: the blocks of the log1 files, in their order, build the chain
unfoldable pub load_line : Codec → Chain → Text → Result Chain
load_line c chain line = do
  item ← parse c line
  if is_type ItemType.block item
      then (do
        blk ← get_block c item
        if size chain == 0
            then push_first chain item.block_height blk.hash
            else push chain item.block_height blk.hash blk.hash_prev_block)
      else ok chain

unfoldable pub load_lines : Codec → Chain → List Text → Result Chain
load_lines c chain [] = ok chain
load_lines c chain (line ∷ lines) = load_line c chain line >>= λ d. load_lines c d lines

-- the lines of all files
abbrev pub concat : List (List Text) → List Text
concat [] = []
concat (file ∷ files) = file ++ concat files

unfoldable pub log_lines : Log1Producer → List Text
log_lines p = concat p.closed ++ p.current

unfoldable pub init_log1 : Codec → ℤ → Hash → Log1Producer → Result Log1Producer
init_log1 c begin_height begin_hash p = do
  chain ← elim p.log1_file_index [
    | none ↦
        push_first p.chain begin_height (if ltb_ℤ (negsuc 0) begin_height then begin_hash else 0)
    | some _ ↦ load_lines c p.chain (log_lines p)
  ]
  guard (not (size chain == 0)) exception
  ok (record p { chain = chain })

-- The first loop of syncBitcoind goes back to a block that bitcoind has too.
unfoldable pub sync_back : Codec → ℕ → Bitcoind → ℕ → Log1Producer → Result Log1Producer
sync_back c max b zero p = err out_of_fuel
sync_back c max b (suc fuel) p = elim (beq_ℤ (get_cur_height p.chain) (negsuc 0)) [
  | true ↦ ok p
  | false ↦ do
    hash ← b.block_hash (get_cur_height p.chain)
    elim (get_cur_hash p.chain == hash) [
      | true ↦ ok p
      | false ↦ do
        let chain = pop p.chain
        guard (not (size chain == 0)) exception
        blk ← b.block_of (get_cur_hash chain)
        sync_back c max b fuel
            (write_log1 max (block_line c (get_cur_height chain) blk) (record p { chain = chain }))
    ]
]

-- The second loop follows bitcoind up to the height `target`.
unfoldable pub sync_forward : Codec → ℕ → Bitcoind → ℕ → ℤ → Log1Producer → Result Log1Producer
sync_forward c max b zero target p =
    if ltb_ℤ (get_cur_height p.chain) target then err out_of_fuel else ok p
sync_forward c max b (suc fuel) target p = elim (ltb_ℤ (get_cur_height p.chain) target) [
  | false ↦ ok p
  | true ↦ do
    let height = succ (get_cur_height p.chain)
    hash ← b.block_hash height
    blk ← b.block_of hash
    guard (blk.hash == hash) assertion
    guard (get_cur_hash p.chain == blk.hash_prev_block) assertion
    chain ← push p.chain height blk.hash blk.hash_prev_block
    sync_forward c max b fuel target
        (write_log1 max (block_line c height blk) (record p { chain = chain }))
]

-- syncBitcoind, on the text of the first log0 file: `tellg` fails when its first line has no end
unfoldable pub sync_bitcoind : Codec → ℕ → Bitcoind → ℕ → Text → Log1Producer → Result Log1Producer
sync_bitcoind c max b rounds text p = elim (get_line text) [
  | none ↦ if length text == 0 then err exception else err unmodelled
  | some (line, _) ↦ do
    item ← parse c line
    guard (is_type ItemType.block item) exception
    first ← get_block c item
    let start : Log1Producer = record p {
      log0 = record { file_index = 0; file_offset = suc (length line) };
    }
    guard (not (size p.chain == 0)) assertion
    back ← sync_back c max b (suc (size p.chain)) start
    guard (not (ltb_ℤ item.block_height (get_cur_height back.chain))) exception
    sync_forward c max b rounds item.block_height back
]

-- init, after its checks of bitcoind and of the directories: has log0 begun anew?
unfoldable pub init :
    Codec → ℕ → Bitcoind → ℕ → Bool → ℤ → Hash → Text → Log1Producer → Result Log1Producer
init c max b rounds is_log0_changed begin_height begin_hash text p = do
  loaded ← init_log1 c begin_height begin_hash p
  if is_log0_changed
      then (do
        synced ←
            sync_bitcoind c max b rounds text
              (write_log1 max (log_line c ItemType.clear_memtxs []) loaded)
        ok (record synced { log0_status = some synced.log0 }))
      else elim loaded.log0_status [
        | none ↦ err exception
        | some at ↦ ok (record loaded { log0 = at })
      ]
