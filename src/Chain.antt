-- ===== src/Chain.antt =====
-- jiexi/src/Log1Producer.{h,cc}, Chain: the latest blocks of the chain that log1 follows.
pub mod Push
pub mod Pop
use explorer_kv.Prelude.{
  ℕ, zero, suc, Bool, true, false, not, Option, none, some, List, [], ◌∷◌, if◌then◌else◌, leb, ltb,
  ◌==◌, length, reverse,
}
use explorer_kv.Prelude.Int.{ℤ, negsuc, succ, beq_ℤ}
use explorer_kv.Prelude.Result.{Result, ok, err, exception, ◌>>=◌, ◌>>◌, guard}
use explorer_kv.Transaction.{Hash}
use explorer_kv.OrdMap.{Map, set, last?, erase_last}
use explorer_kv.OrdMap.Order.{int_ord}
use explorer_kv.BlockTimestamp.{trim}

pub record Chain : Type 0 where
  pub limit : ℕ
  pub blocks : Map ℤ Hash

abbrev pub size : Chain → ℕ
size c = length c.blocks

-- -1 and uint256() when there is no block
abbrev height_of : Option (ℤ × Hash) → ℤ
height_of none = negsuc 0
height_of (some (height, _)) = height

abbrev hash_of : Option (ℤ × Hash) → Hash
hash_of none = 0
hash_of (some (_, hash)) = hash

unfoldable pub get_cur_height : Chain → ℤ
get_cur_height c = height_of (last? c.blocks)

unfoldable pub get_cur_hash : Chain → Hash
get_cur_hash c = hash_of (last? c.blocks)

unfoldable pub push_first : Chain → ℤ → Hash → Result Chain
push_first c height hash = do
  guard (size c == 0) exception
  ok (record c { blocks = set height hash c.blocks })

-- `it->second` for the iterator that stands two steps behind the last block
unfoldable pub third_hash : Map ℤ Hash → Option Hash
third_hash [] = none
third_hash (_ ∷ []) = none
third_hash (_ ∷ _ ∷ []) = none
third_hash ((_, hash) ∷ _ ∷ _ ∷ []) = some hash
third_hash (_ ∷ b ∷ d ∷ e ∷ m) = third_hash (b ∷ d ∷ e ∷ m)

unfoldable pub forward : Chain → ℤ → Hash → Hash → Result (Map ℤ Hash)
unfolding get_cur_hash
forward c height hash prev_hash = do
  guard (prev_hash == get_cur_hash c) exception
  ok (set height hash c.blocks)

-- more than three blocks make the iterator valid
unfoldable pub backward : Chain → Hash → Result (Map ℤ Hash)
unfolding third_hash
backward c prev_hash = do
  guard (ltb 3 (size c)) exception
  elim (third_hash c.blocks) [
    | none ↦ err exception
    | some hash ↦ if prev_hash == hash then ok (erase_last c.blocks) else err exception
  ]

unfoldable pub push : Chain → ℤ → Hash → Hash → Result Chain
unfolding forward backward get_cur_height trim
push c height hash prev_hash = do
  blocks ←
      if beq_ℤ height (succ (get_cur_height c))
      then forward c height hash prev_hash
      else if beq_ℤ (succ height) (get_cur_height c)
      then backward c prev_hash
      else err exception
  ok (record c { blocks = trim (length blocks) c.limit blocks })

-- `erase_last` leaves an empty map empty, as the early return does
unfoldable pub pop : Chain → Chain
pop c = record c { blocks = erase_last c.blocks }
