-- ===== src/BlockTimestamp/Window.antt =====
-- BlockTimestamp (jiexi/src/Log2Producer.cc): the greatest timestamp of the window.
use explorer_kv.Prelude.{
  ℕ, zero, suc, ◌<◌, ◌≤◌, [], ◌∷◌, ◌++◌, if◌then◌else◌, ◌≡◌, refl, sym, ap, ◌∙◌, arith, ltb, length,
  length-append, All, Bool-cases, inl, inr,
}
use explorer_kv.Prelude.Int.{ℤ}
use explorer_kv.Prelude.Result.{Result, ok, ◌>>=◌}
use explorer_kv.OrdMap.{Map, set, erase_first, erase_last}
use explorer_kv.OrdMap.Order.{int_ord}
use explorer_kv.OrdMap.Last.{Below, set-append, find-Below, erase_last-append}
use explorer_kv.BlockTimestamp.{BlockTimestamp, trim, push_block, max_from, pop_block}

-- Every timestamp of the window is at most `n`.
abbrev pub AtMost : ℕ → Map ℤ ℕ → Type 0
AtMost n m = All (λ e. e.1 ≤ n) m

AtMost-mono : (n k : ℕ) (m : Map ℤ ℕ) → n ≤ k → AtMost n m → AtMost k m
AtMost-mono n k [] h a = tt
AtMost-mono n k (e ∷ m) h a = (omega arith, AtMost-mono n k m h a.1)

max_from-le : (acc n : ℕ) (m : Map ℤ ℕ) → acc ≤ n → AtMost n m → max_from acc m ≤ n
unfolding max_from
max_from-le acc n [] h a = h
max_from-le acc n ((k, ts) ∷ m) h a =
    max_from-le (if ltb acc ts then ts else acc) n m (ground arith) a.1

le-max_from : (acc : ℕ) (m : Map ℤ ℕ) → acc ≤ max_from acc m
unfolding max_from
le-max_from acc [] = omega arith
le-max_from acc ((k, ts) ∷ m) = ground (arith, le-max_from (if ltb acc ts then ts else acc) m)

max_from-AtMost : (acc : ℕ) (m : Map ℤ ℕ) → AtMost (max_from acc m) m
unfolding max_from
max_from-AtMost acc [] = tt
max_from-AtMost acc ((k, ts) ∷ m) = (
  ground (arith, le-max_from (if ltb acc ts then ts else acc) m),
  max_from-AtMost (if ltb acc ts then ts else acc) m,
)

max_from-append :
    (acc : ℕ) (k : ℤ) (ts : ℕ) (m : Map ℤ ℕ)
    → max_from acc (m ++ (k, ts) ∷ []) ≡ (if ltb (max_from acc m) ts then ts else max_from acc m)
unfolding max_from
max_from-append acc k ts [] = refl
max_from-append acc k ts ((j, t) ∷ m) = max_from-append (if ltb acc t then t else acc) k ts m

AtMost-append :
    (n : ℕ) (k : ℤ) (ts : ℕ) (m : Map ℤ ℕ) → ts ≤ n → AtMost n m → AtMost n (m ++ (k, ts) ∷ [])
AtMost-append n k ts [] h a = (h, tt)
AtMost-append n k ts (e ∷ m) h a = (a.0, AtMost-append n k ts m h a.1)

trim-AtMost : (n rounds limit : ℕ) (m : Map ℤ ℕ) → AtMost n m → AtMost n (trim rounds limit m)
unfolding trim erase_first
trim-AtMost n zero limit m a = a
trim-AtMost n (suc rounds) limit [] a = elim (Bool-cases (ltb limit 0)) [
  | inl more ↦ rw (more, trim) (trim-AtMost n rounds limit [] tt)
  | inr done ↦ rw (done, trim) tt
]
trim-AtMost n (suc rounds) limit (e ∷ m) a = elim (Bool-cases (ltb limit (suc (length m)))) [
  | inl more ↦ rw more (trim-AtMost n rounds limit m a.1)
  | inr done ↦ rw done a
]

-- The loop that drops the first entries stops at the limit.
pub length-trim {ℓ κ} :
    {K : Type ℓ} {V : Type κ} (rounds limit : ℕ) (m : Map K V)
    → length m ≤ rounds
    → length (trim rounds limit m) ≤ limit
unfolding trim erase_first
length-trim zero limit m h = omega arith
length-trim (suc rounds) limit [] h = ground arith
length-trim (suc rounds) limit (e ∷ m) h = ground (arith, length-trim rounds limit m)

pub trim_small {ℓ κ} :
    {K : Type ℓ} {V : Type κ} (rounds limit : ℕ) (m : Map K V)
    → length m ≤ limit
    → trim rounds limit m ≡ m
unfolding trim
trim_small zero limit m h = refl
trim_small (suc rounds) limit m h = ground arith

-- `curr_max` bounds the window, which has at most `limit` entries.
pub record IsBounded (b : BlockTimestamp) : Type 0 where
  pub at_most : AtMost b.curr_max b.blk_timestamps
  pub short : length b.blk_timestamps ≤ b.limit

-- Pushing a height above all others of a bounded window succeeds, and the window stays bounded:
-- at most `limit` timestamps, none above the maximum, which did not fall and is at least the
-- new timestamp.
pub push_block-IsBounded :
    (b : BlockTimestamp) (height : ℤ) (ts : ℕ)
    → IsBounded b
    → Below height b.blk_timestamps
    → (b' : BlockTimestamp) × (push_block b height ts ≡ ok b')
      × IsBounded b'
      × (b.curr_max ≤ b'.curr_max)
      × (ts ≤ b'.curr_max)
unfolding push_block
push_block-IsBounded b height ts v below =
    let stamps = set height ts b.blk_timestamps in
    let top = if ltb b.curr_max ts then ts else b.curr_max in
    let grown : AtMost top stamps = rw (set-append height ts b.blk_timestamps below) (
      AtMost-append top height ts b.blk_timestamps (ground arith)
        (AtMost-mono b.curr_max top b.blk_timestamps (ground arith) v.at_most)) in
    (
      record b { curr_max = top; blk_timestamps = trim (length stamps) b.limit stamps },
      rw (find-Below height b.blk_timestamps below),
      record {
        at_most = trim-AtMost top (length stamps) b.limit stamps grown;
        short = length-trim (length stamps) b.limit stamps (omega arith);
      },
      ground arith,
      ground arith,
    )

abbrev pub IsExact : BlockTimestamp → Type 0
IsExact b = b.curr_max ≡ max_from 0 b.blk_timestamps

pop_block-append :
    (b : BlockTimestamp) (m : Map ℤ ℕ) (e : ℤ × ℕ)
    → b.blk_timestamps ≡ m ++ e ∷ []
    → pop_block b ≡ ok (record b { curr_max = max_from 0 m; blk_timestamps = m })
unfolding pop_block erase_last
pop_block-append b [] e h = rw (h, pop_block) refl
pop_block-append b (d ∷ m) e h = rw (h, pop_block) (rw (erase_last-append (d ∷ m) e))

-- In a window below its limit whose maximum is that of its timestamps, popping a block just
-- pushed at a height above all others restores the window and its maximum.
pub pop_block-push_block :
    (b : BlockTimestamp) (height : ℤ) (ts : ℕ)
    → IsExact b
    → Below height b.blk_timestamps
    → length b.blk_timestamps < b.limit
    → (push_block b height ts >>= pop_block) ≡ ok b
unfolding push_block
pop_block-push_block b height ts exact below room =
    let m = b.blk_timestamps in
    let fits : length (m ++ (height, ts) ∷ []) ≤ b.limit =
      omega (arith, length-append m ((height, ts) ∷ [])) in
    let kept = trim_small (length (m ++ (height, ts) ∷ [])) b.limit (m ++ (height, ts) ∷ []) fits in
    let pushed = record b {
      curr_max = if ltb b.curr_max ts then ts else b.curr_max;
      blk_timestamps = trim (length (m ++ (height, ts) ∷ [])) b.limit (m ++ (height, ts) ∷ []);
    } in
    rw (find-Below height m below, set-append height ts m below)
      (pop_block-append pushed m (height, ts) kept ∙ ap restore (sym exact))
  where
    restore : ℕ → Result BlockTimestamp
    restore n = ok (record b { curr_max = n })
