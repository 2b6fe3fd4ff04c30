-- ===== src/OrdMap/Order.antt =====
-- The key order of a std::map: `operator<`, with the equality that it gives rise to.
use explorer_kv.Prelude.{ℕ, Bool, true, false, ◌≡◌, ◌↔◌, arith, ltb, ◌==◌, ==_iff}
use explorer_kv.Prelude.Int.{ℤ, ltb_ℤ, beq_ℤ, beq_ℤ_iff, ltb_ℤ_irrefl, ltb_ℤ_trans, ltb_ℤ_total}

pub record Ord {ℓ} (K : Type ℓ) : Type ℓ where
  pub beq : K → K → Bool
  pub lt : K → K → Bool
  pub beq_iff : (a b : K) → (beq a b ≡ true) ↔ (a ≡ b)
  pub lt_irrefl : (a : K) → lt a a ≡ false
  pub lt_trans : (a b c : K) → lt a b ≡ true → lt b c ≡ true → lt a c ≡ true
  pub lt_total : (a b : K) → lt a b ≡ false → lt b a ≡ false → a ≡ b

pub ltb_irrefl : (a : ℕ) → ltb a a ≡ false
ltb_irrefl a = ground arith

pub ltb_trans : (a b c : ℕ) → ltb a b ≡ true → ltb b c ≡ true → ltb a c ≡ true
ltb_trans a b c h k = ground arith

pub ltb_total : (a b : ℕ) → ltb a b ≡ false → ltb b a ≡ false → a ≡ b
ltb_total a b h k = ground arith

-- uint256 as a number
instance abbrev pub nat_ord : Ord ℕ
nat_ord = record {
  beq = ◌==◌;
  lt = ltb;
  beq_iff = ==_iff;
  lt_irrefl = ltb_irrefl;
  lt_trans = ltb_trans;
  lt_total = ltb_total;
}

-- int32_t
instance abbrev pub int_ord : Ord ℤ
int_ord = record {
  beq = beq_ℤ;
  lt = ltb_ℤ;
  beq_iff = beq_ℤ_iff;
  lt_irrefl = ltb_ℤ_irrefl;
  lt_trans = ltb_ℤ_trans;
  lt_total = ltb_ℤ_total;
}
