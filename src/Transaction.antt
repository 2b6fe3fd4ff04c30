-- ===== src/Transaction.antt =====
-- Transactions and blocks as the producers read them (core.h of the bundled Bitcoin sources gives
-- the classes): a hash is a uint256, and GetHash(), IsCoinBase(), vout.size(), GetBlockTime() and
-- the hex encoding enter as the values that these calls return.
use explorer_kv.Prelude.{
  ℕ, Bool, true, false, List, [], ◌∷◌, ◌≡◌, ◌↔◌, ◌&&◌, ◌||◌, arith, ltb, ◌==◌,
}
use explorer_kv.OrdMap.Order.{Ord}

abbrev pub Hash : Type 0
Hash = ℕ

-- jiexi/src/Log2Producer.h, TxOutputKey: the output of a transaction by its place
pub record TxOutputKey : Type 0 where
  pub hash : Hash
  pub position : ℕ

pub record Tx : Type 0 where
  pub hash : Hash
  -- the `prevout` of each input
  pub vin : List TxOutputKey
  -- vout.size()
  pub vout : ℕ
  pub is_coinbase : Bool

pub record Block : Type 0 where
  pub hash : Hash
  pub hash_prev_block : Hash
  pub block_time : ℕ
  pub vtx : List Tx

abbrev pub key_beq : TxOutputKey → TxOutputKey → Bool
key_beq a b = a.hash == b.hash && a.position == b.position

-- operator<
abbrev pub key_lt : TxOutputKey → TxOutputKey → Bool
key_lt a b = ltb a.hash b.hash || (a.hash == b.hash && ltb a.position b.position)

pub key_beq_iff : (a b : TxOutputKey) → (key_beq a b ≡ true) ↔ (a ≡ b)
key_beq_iff a b = ground arith

pub key_lt_irrefl : (a : TxOutputKey) → key_lt a a ≡ false
key_lt_irrefl a = ground arith

pub key_lt_trans : (a b c : TxOutputKey) → key_lt a b ≡ true → key_lt b c ≡ true → key_lt a c ≡ true
key_lt_trans a b c h k = ground arith

pub key_lt_total : (a b : TxOutputKey) → key_lt a b ≡ false → key_lt b a ≡ false → a ≡ b
key_lt_total a b h k = ground arith

instance abbrev pub key_ord : Ord TxOutputKey
key_ord = record {
  beq = key_beq;
  lt = key_lt;
  beq_iff = key_beq_iff;
  lt_irrefl = key_lt_irrefl;
  lt_trans = key_lt_trans;
  lt_total = key_lt_total;
}

-- Is the output among the inputs?
abbrev pub spends : TxOutputKey → List TxOutputKey → Bool
spends out [] = false
spends out (i ∷ vin) = key_beq i out || spends out vin

-- No output is named twice.
abbrev pub DistinctInputs : List TxOutputKey → Type 0
DistinctInputs [] = Unit
DistinctInputs (i ∷ vin) = (spends i vin ≡ false) × DistinctInputs vin
