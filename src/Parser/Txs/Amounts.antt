-- ===== src/Parser/Txs/Amounts.antt =====
-- GetValueOut on amounts of money.
use explorer_kv.Prelude.{true, List, [], ◌∷◌, ◌≡◌, ◌≤◌, ◌+◌, refl, sym, ap, ◌∙◌, arith, All}
use explorer_kv.Prelude.Int.{ℤ, pos, negsuc, ◌+ℤ◌, pos_part, neg_part, int_laws}
use explorer_kv.Prelude.Result.{ok}
use explorer_kv.Parser.Kvdb.{CTxOut}
use explorer_kv.Parser.Balance.{sum_values, money_range, value_out_from, get_value_out}

-- Each output is an amount of money, and so is their sum.
pub record IsMoney (outs : List CTxOut) : Type 0 where
  pub each : All (λ out. money_range out.value ≡ true) outs
  pub whole : money_range (sum_values outs) ≡ true

money_parts : (z : ℤ) → money_range z ≡ true → (neg_part z ≡ 0) × (pos_part z ≤ 2100000000000000)
unfolding money_range
money_parts (pos n) h = (refl, ground arith)
money_parts (negsuc n) h = cc

money_of_parts : (z : ℤ) → neg_part z ≡ 0 → pos_part z ≤ 2100000000000000 → money_range z ≡ true
unfolding money_range
money_of_parts (pos n) none most = ground arith
money_of_parts (negsuc n) none most = (let no : ⊥ = omega (arith, none) in elim no [ ])

-- a sum of two that are not negative
plus_parts :
    (a b : ℤ)
    → neg_part a ≡ 0
    → neg_part b ≡ 0
    → (neg_part (a +ℤ b) ≡ 0) × (pos_part (a +ℤ b) ≡ pos_part a + pos_part b)
unfolding ◌+ℤ◌
plus_parts a b ha hb = (ground arith, ground arith)

sum_values-positive :
    (outs : List CTxOut)
    → All (λ out. money_range out.value ≡ true) outs
    → neg_part (sum_values outs) ≡ 0
unfolding sum_values
sum_values-positive [] each = refl
sum_values-positive (out ∷ outs) (first, each) =
    (plus_parts out.value (sum_values outs) (money_parts out.value first).0
      (sum_values-positive outs each)).0

value_out_from-IsMoney :
    (sum : ℤ) (outs : List CTxOut)
    → money_range sum ≡ true
    → All (λ out. money_range out.value ≡ true) outs
    → money_range (sum +ℤ sum_values outs) ≡ true
    → value_out_from sum outs ≡ ok (sum +ℤ sum_values outs)
unfolding value_out_from sum_values
value_out_from-IsMoney sum [] start each whole = ap ok (omega int_laws)
value_out_from-IsMoney sum (out ∷ outs) start (first, each) whole =
    let assoc : sum +ℤ (out.value +ℤ sum_values outs) ≡ sum +ℤ out.value +ℤ sum_values outs =
      omega int_laws in
    let low = plus_parts sum out.value (money_parts sum start).0 (money_parts out.value first).0 in
    let whole' : money_range (sum +ℤ out.value +ℤ sum_values outs) ≡ true =
      ap money_range (sym assoc) ∙ whole in
    let all =
      plus_parts (sum +ℤ out.value) (sum_values outs) low.0 (sum_values-positive outs each) in
    let next : money_range (sum +ℤ out.value) ≡ true =
      let most : pos_part (sum +ℤ out.value) ≤ 2100000000000000 =
        omega (arith, all.1, (money_parts (sum +ℤ out.value +ℤ sum_values outs) whole').1) in
      money_of_parts (sum +ℤ out.value) low.0 most in
    rw (first) (
      rw (next)
        (value_out_from-IsMoney (sum +ℤ out.value) outs next each whole' ∙ ap ok (sym assoc)))

pub get_value_out-IsMoney :
    (outs : List CTxOut) → IsMoney outs → get_value_out outs ≡ ok (sum_values outs)
unfolding get_value_out
get_value_out-IsMoney outs m =
    let same : pos 0 +ℤ sum_values outs ≡ sum_values outs = omega int_laws in
    value_out_from-IsMoney (pos 0) outs refl m.each (ap money_range same ∙ m.whole) ∙ ap ok same
