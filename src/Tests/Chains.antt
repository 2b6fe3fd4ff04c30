-- ===== src/Tests/Chains.antt =====
-- The chain of the latest blocks, and their timestamps.
use explorer_kv.Prelude.{◌≤◌, some, [], ◌∷◌, ◌≡◌, refl, arith}
use explorer_kv.Prelude.Int.{pos}
use explorer_kv.Prelude.Result.{ok, err, exception, ◌>>=◌}
use explorer_kv.OrdMap.{last?, set}
use explorer_kv.OrdMap.Order.{int_ord}
use explorer_kv.BlockTimestamp.{BlockTimestamp, push_block, pop_block, max_from, trim}
use explorer_kv.BlockTimestamp.Window.{IsBounded, push_block-IsBounded, pop_block-push_block}
use explorer_kv.Chain.{Chain, get_cur_height, get_cur_hash, push, forward, pop, third_hash}
use explorer_kv.Chain.Push.{IsValid}
use explorer_kv.Chain.Pop.{push-pop, push-pop_short, push-IsValid}

abbrev two : Chain
two = record { limit = 4; blocks = (pos 2, 22) ∷ (pos 3, 33) ∷ [] }

abbrev four : Chain
four = record { limit = 4; blocks = (pos 0, 1) ∷ (pos 1, 11) ∷ (pos 2, 22) ∷ (pos 3, 33) ∷ [] }

two-IsValid : IsValid two
two-IsValid = record { nonempty = omega arith; consecutive = (refl, tt); short = omega arith }

four-IsValid : IsValid four
four-IsValid = record {
  nonempty = omega arith;
  consecutive = (refl, (refl, (refl, tt)));
  short = omega arith;
}

-- the first block leaves
third_of_four : third_hash four.blocks ≡ some 11
unfolding third_hash
third_of_four = refl

push-pop_example : push four (get_cur_height (pop four)) 22 11 ≡ ok (pop four)
push-pop_example = push-pop four 22 11 four-IsValid (omega arith) third_of_four

push-pop_short_example :
    IsValid (pop two) × (push two (get_cur_height (pop two)) 22 11 ≡ err exception)
push-pop_short_example = push-pop_short two 22 11 two-IsValid (omega arith) (omega arith)

abbrev three : Chain
three = record { limit = 4; blocks = (pos 2, 22) ∷ (pos 3, 33) ∷ (pos 4, 44) ∷ [] }

two_to_three : push two (pos 4) 44 33 ≡ ok three
unfolding push forward get_cur_height get_cur_hash last? set trim
two_to_three = refl

push-IsValid_example : IsValid three
push-IsValid_example = push-IsValid two three (pos 4) 44 33 two-IsValid two_to_three

abbrev window : BlockTimestamp
window = record { limit = 3; curr_max = 900; blk_timestamps = (pos 2, 900) ∷ (pos 3, 850) ∷ [] }

window-IsBounded : IsBounded window
window-IsBounded = record { at_most = (omega arith, (omega arith, tt)); short = omega arith }

push_block-IsBounded_example :
    (b : BlockTimestamp) × (push_block window (pos 4) 870 ≡ ok b)
    × IsBounded b
    × (900 ≤ b.curr_max)
    × (870 ≤ b.curr_max)
push_block-IsBounded_example =
    push_block-IsBounded window (pos 4) 870 window-IsBounded (refl, (refl, tt))

exact : window.curr_max ≡ max_from 0 window.blk_timestamps
unfolding max_from
exact = refl

pop_block-push_block_example : (push_block window (pos 4) 950 >>= pop_block) ≡ ok window
pop_block-push_block_example =
    pop_block-push_block window (pos 4) 950 exact (refl, (refl, tt)) (omega arith)
