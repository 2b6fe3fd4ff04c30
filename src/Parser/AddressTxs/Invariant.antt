-- ===== src/Parser/AddressTxs/Invariant.antt =====
-- What the counters of an address say of its chain, and the chains that an address may have.
use explorer_kv.Prelude.{
  ℕ, suc, ◌<◌, true, false, some, ◌≡◌, refl, sym, ap, ◌∙◌, arith, if◌then◌else◌,
}
use explorer_kv.Prelude.Int.{ℤ, pos, ◌+ℤ◌, ◌-ℤ◌, int_laws, same_parts}
use explorer_kv.OrdMap.{Map, find, set, erase}
use explorer_kv.OrdMap.Order.{nat_ord}
use explorer_kv.Parser.Address.{AddressInfo, AddressTx, Address, new_address, init}
use explorer_kv.Parser.AddressTxs.{received_of, sent_of}
use explorer_kv.Parser.AddressTxs.Totals.{total, total-set, total-set_end, total-erase_end}
use explorer_kv.Parser.AddressTxs.Listed.{has_height, IsListed}

-- what an entry adds to the sum of an unconfirmed amount
abbrev pub pending : (ℤ → ℤ) → AddressTx → ℤ
pending amount t = if has_height t then pos 0 else amount t.balance_diff

abbrev pub settled : (ℤ → ℤ) → AddressTx → ℤ
settled amount t = amount t.balance_diff

abbrev pub one : ℤ → ℤ
one diff = pos 1

-- The amounts of an address are the sums over its chain, the unconfirmed ones over the entries that
-- have no height.
pub record IsBalanced (i : AddressInfo) (txs : Map ℕ AddressTx) : Type 0 where
  pub received : i.received ≡ total (settled received_of) i.tx_count txs
  pub sent : i.sent ≡ total (settled sent_of) i.tx_count txs
  pub unconfirmed_tx_count : i.unconfirmed_tx_count ≡ total (pending one) i.tx_count txs
  pub unconfirmed_received : i.unconfirmed_received ≡ total (pending received_of) i.tx_count txs
  pub unconfirmed_sent : i.unconfirmed_sent ≡ total (pending sent_of) i.tx_count txs

pub record IsChain (a : Address) : Type 0 where
  pub listed : IsListed a.info.tx_count a.info.next_confirmed_idx a.txs a.tx_idxs
  pub balanced : IsBalanced a.info a.txs

pub new_address-IsChain : IsChain new_address
unfolding new_address init total find
new_address-IsChain = record {
  listed = record {
    bounded = omega arith;
    present = λ i below. ground arith;
    inside = λ i t at. ground arith;
    indexed = λ i t at. ground arith;
    heights = λ i t at. ground arith;
  };
  balanced = record {
    received = refl;
    sent = refl;
    unconfirmed_tx_count = refl;
    unconfirmed_received = refl;
    unconfirmed_sent = refl;
  };
}

-- a sum after an unconfirmed entry is written behind the others
pub grow :
    (weight : AddressTx → ℤ) (n : ℕ) (v : AddressTx) (m : Map ℕ AddressTx) {amount more : ℤ}
    → amount ≡ total weight n m
    → weight v ≡ more
    → amount +ℤ more ≡ total weight (suc n) (set n v m)
grow weight n v m before here = rw (total-set_end weight n v m, before, here) refl

-- a sum after an entry is rewritten
pub revalue :
    (weight : AddressTx → ℤ) (n k : ℕ) (v w : AddressTx) (m : Map ℕ AddressTx) {amount amount' : ℤ}
    → k < n
    → find k m ≡ some w
    → amount ≡ total weight n m
    → amount' +ℤ weight w ≡ amount +ℤ weight v
    → amount' ≡ total weight n (set k v m)
revalue weight n k v w m inside at before change =
    let moved : total weight n (set k v m) +ℤ weight w ≡ total weight n m +ℤ weight v =
      total-set weight n k v w m inside at in
    omega (int_laws, same_parts moved, same_parts before, same_parts change)

-- a sum after the last entry is removed
pub shrink :
    (weight : AddressTx → ℤ) (n : ℕ) (w : AddressTx) (m : Map ℕ AddressTx) {amount less : ℤ}
    → find n m ≡ some w
    → amount ≡ total weight (suc n) m
    → weight w ≡ less
    → amount -ℤ less ≡ total weight n (erase n m)
shrink weight n w m at before here =
    let moved : total weight n (erase n m) +ℤ weight w ≡ total weight (suc n) m =
      total-erase_end weight n w m at in
    omega (int_laws, same_parts moved, same_parts before, same_parts here)

pub pending_low :
    (amount : ℤ → ℤ) (t : AddressTx)
    → has_height t ≡ false
    → pending amount t ≡ amount t.balance_diff
pending_low amount t low = rw (low) refl

pending_high : (amount : ℤ → ℤ) (t : AddressTx) → has_height t ≡ true → pending amount t ≡ pos 0
pending_high amount t high = rw (high) refl

-- an unconfirmed sum after an entry gets the height of a block, and after it loses it
module _ (amount : ℤ → ℤ) (n k : ℕ) (v w : AddressTx) (m : Map ℕ AddressTx) (inside : k < n)
    (at : find k m ≡ some w) (same : v.balance_diff ≡ w.balance_diff) where
  pub revalue_kept :
      {x : ℤ} → x ≡ total (settled amount) n m → x ≡ total (settled amount) n (set k v m)
  revalue_kept {x = x} before =
      revalue (settled amount) n k v w m inside at before (ap (λ d. x +ℤ amount d) (sym same))

  pub revalue_confirmed :
      {x : ℤ}
      → has_height w ≡ false
      → has_height v ≡ true
      → x ≡ total (pending amount) n m
      → x -ℤ amount w.balance_diff ≡ total (pending amount) n (set k v m)
  revalue_confirmed low high before = revalue (pending amount) n k v w m inside at before (
      omega
        (int_laws, same_parts (pending_low amount w low), same_parts (pending_high amount v high)))

  pub revalue_unconfirmed :
      {x : ℤ}
      → has_height w ≡ true
      → has_height v ≡ false
      → x ≡ total (pending amount) n m
      → x +ℤ amount w.balance_diff ≡ total (pending amount) n (set k v m)
  revalue_unconfirmed high low before = revalue (pending amount) n k v w m inside at before (
      omega (
        int_laws,
        same_parts (pending_low amount v low ∙ ap amount same),
        same_parts (pending_high amount w high),
      ))
