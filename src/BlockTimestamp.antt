-- ===== src/BlockTimestamp.antt =====
-- jiexi/src/Log2Producer.{h,cc}, BlockTimestamp: the timestamps of the latest blocks, and the
-- greatest of them, which stamps the rows of the log.
pub mod Window
use explorer_kv.Prelude.{ℕ, zero, suc, List, [], ◌∷◌, not, if◌then◌else◌, ltb, length, none, some}
use explorer_kv.Prelude.Int.{ℤ}
use explorer_kv.Prelude.Result.{Result, ok, err, assertion, ◌>>=◌, ◌>>◌, guard}
use explorer_kv.OrdMap.{Map, has, set, erase_first, erase_last}
use explorer_kv.OrdMap.Order.{int_ord}

pub record BlockTimestamp : Type 0 where
  pub limit : ℕ
  pub curr_max : ℕ
  pub blk_timestamps : Map ℤ ℕ

pub init : ℕ → BlockTimestamp
init limit = record { limit = limit; curr_max = 0; blk_timestamps = [] }

abbrev pub get_max_timestamp : BlockTimestamp → ℕ
get_max_timestamp b = b.curr_max

-- while (m.size() > limit) m.erase(m.begin()): at most `rounds` times, for which the size is enough
unfoldable pub trim {ℓ κ} : {K : Type ℓ} {V : Type κ} → ℕ → ℕ → Map K V → Map K V
trim zero limit m = m
trim (suc rounds) limit m =
    let rest = trim rounds limit (erase_first m) in if ltb limit (length m) then rest else m

unfoldable pub push_block : BlockTimestamp → ℤ → ℕ → Result BlockTimestamp
unfolding trim
push_block b height ts = do
  guard (not (has height b.blk_timestamps)) assertion
  let stamps = set height ts b.blk_timestamps
  ok (record b {
    curr_max = if ltb b.curr_max ts then ts else b.curr_max;
    blk_timestamps = trim (length stamps) b.limit stamps;
  })

-- the loop of `popBlock`
unfoldable pub max_from : ℕ → Map ℤ ℕ → ℕ
max_from acc [] = acc
max_from acc ((_, ts) ∷ m) = max_from (if ltb acc ts then ts else acc) m

unfoldable pub pop_block : BlockTimestamp → Result BlockTimestamp
unfolding max_from
pop_block b = elim b.blk_timestamps [
  | [] ↦ err assertion
  | e ∷ m ↦
      let stamps = erase_last (e ∷ m) in
      ok (record b { curr_max = max_from 0 stamps; blk_timestamps = stamps })
]
