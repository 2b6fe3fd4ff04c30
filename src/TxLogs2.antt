-- ===== src/TxLogs2.antt =====
-- The rows of the table 0_txlogs2, which log2producer writes and tparser consumes, and the states
-- of a transaction that jiexi/src/Log2Producer.h documents.
pub mod Lifecycle
use explorer_kv.Prelude.{ℕ, Bool, true, false, List, [], ◌∷◌, ◌≡◌, map, if◌then◌else◌, ◌==◌}
use explorer_kv.Prelude.Int.{ℤ, negsuc}
use explorer_kv.Transaction.{Hash}

-- LOG2TYPE_TX_ACCEPT, _CONFIRM, _UNCONFIRM, _REJECT
pub data LogType : Type 0 where
  accept confirm unconfirm reject : LogType

unfoldable pub type_code : LogType → ℕ
type_code accept = 100
type_code confirm = 200
type_code unconfirm = 300
type_code reject = 400

-- A row without its two dates. `batch_id` is -1 until the batch is committed.
pub record Row : Type 0 where
  pub batch_id : ℤ
  pub type : LogType
  pub block_height : ℤ
  pub block_id : ℤ
  pub max_block_timestamp : ℕ
  pub tx_hash : Hash

-- What the log has said of a transaction: nothing (or that it was rejected), that it waits in the
-- memory pool, that it is in a block.
pub data Status : Type 0 where
  absent unconfirmed confirmed : Status

-- The status that an entry starts from, and the one that it leads to.
abbrev pub from : LogType → Status
from accept = Status.absent
from confirm = Status.unconfirmed
from unconfirm = Status.confirmed
from reject = Status.unconfirmed

abbrev pub to : LogType → Status
to accept = Status.unconfirmed
to confirm = Status.confirmed
to unconfirm = Status.unconfirmed
to reject = Status.absent

abbrev pub Ledger : Type 0
Ledger = Hash → Status

-- The ledger after an entry, and after a list of them.
abbrev pub after : Ledger → LogType → Hash → Ledger
after s t h j = if h == j then to t else s j

unfoldable pub replay : Ledger → List Row → Ledger
replay s [] = s
replay s (r ∷ rows) = replay (after s r.type r.tx_hash) rows

-- Each row finds its transaction in the status that it starts from.
abbrev pub IsLegal : Ledger → List Row → Type 0
IsLegal s [] = Unit
IsLegal s (r ∷ rows) = (s r.tx_hash ≡ from r.type) × IsLegal (after s r.type r.tx_hash) rows

abbrev pub is_unconfirmed : Status → Bool
is_unconfirmed Status.unconfirmed = true
is_unconfirmed _ = false

-- '-1,400,-1,-1,0,<hash>': a transaction that leaves the memory pool without a block
abbrev pub reject_row : Hash → Row
reject_row h = record {
  batch_id = negsuc 0;
  type = LogType.reject;
  block_height = negsuc 0;
  block_id = negsuc 0;
  max_block_timestamp = 0;
  tx_hash = h;
}

abbrev pub reject_rows : List Hash → List Row
reject_rows = map reject_row
