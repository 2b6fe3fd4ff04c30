-- ===== src/Parser/Unspents/Invariant.antt =====
-- The two indexes of the unspent outputs of an address and their counter.
use explorer_kv.Prelude.{
  ℕ, suc, false, ◌==◌, subst, ◌<◌, none, some, ◌≡◌, ◌≢◌, refl, sym, ap, ◌∙◌, arith, inl, inr,
  Bool-cases, ==_iff,
}
use explorer_kv.Prelude.Int.{ℤ, pos, ◌+ℤ◌, ◌-ℤ◌, int_laws, same_parts}
use explorer_kv.Prelude.Result.{ok, >>=-ok}
use explorer_kv.Transaction.{TxOutputKey, key_ord, key_beq, key_beq_iff}
use explorer_kv.OrdMap.{find, set, erase}
use explorer_kv.OrdMap.Order.{nat_ord}
use explorer_kv.OrdMap.Laws.{find-set, find-erase}
use explorer_kv.Parser.Address.{AddressUnspent, Address, new_address, init, get}
use explorer_kv.Parser.AddressTxs.Totals.{total, total-set_end, total-erase}
use explorer_kv.Parser.AddressTxs.Listed.{set_cases}
use explorer_kv.Parser.Unspents.{
  new_unspent, insert_address_unspent, delete_address_unspent, remove_unspent_output,
}

abbrev pub key_of : AddressUnspent → TxOutputKey
key_of u = record { hash = u.tx_hash; position = u.position }

abbrev pub each : AddressUnspent → ℤ
each u = pos 1

-- Each index leads back to where the other one leads from, no entry stands at an index that was not
-- given yet, and the counter counts the entries.
pub record IsUnspent (a : Address) : Type 0 where
  pub inside :
      (i : ℕ) (u : AddressUnspent) → find i a.unspents ≡ some u → i < a.info.next_unspent_idx
  pub indexed :
      (i : ℕ) (u : AddressUnspent)
      → find i a.unspents ≡ some u
      → find (key_of u) a.unspent_idxs ≡ some i
  pub listed :
      (out : TxOutputKey) (i : ℕ)
      → find out a.unspent_idxs ≡ some i
      → (u : AddressUnspent) × (find i a.unspents ≡ some u) × (key_of u ≡ out)
  pub counted : a.info.unspent_tx_count ≡ total each a.info.next_unspent_idx a.unspents

module _ (value : ℤ) (out : TxOutputKey) (position2 : ℕ) (a : Address) (inv : IsUnspent a)
    (fresh : find out a.unspent_idxs ≡ none) where
  abbrev entry : AddressUnspent
  entry = new_unspent value out position2

  inserted-indexed :
      (i : ℕ) (u : AddressUnspent)
      → find i (set a.info.next_unspent_idx entry a.unspents) ≡ some u
      → find (key_of u) (set out a.info.next_unspent_idx a.unspent_idxs) ≡ some i
  inserted-indexed i u at = elim (set_cases a.info.next_unspent_idx i entry u a.unspents at) [
    | inl (here, same) ↦
        subst (λ x. find (key_of x) (set out a.info.next_unspent_idx a.unspent_idxs) ≡ some i) same
          (ground (arith, here, find-set out out a.info.next_unspent_idx a.unspent_idxs))
    | inr (other, old) ↦ ground (
      arith,
      fresh,
      inv.indexed i u old,
      key_beq_iff out (key_of u),
      find-set out (key_of u) a.info.next_unspent_idx a.unspent_idxs,
    )
  ]

  inserted-inside :
      (i : ℕ) (u : AddressUnspent)
      → find i (set a.info.next_unspent_idx entry a.unspents) ≡ some u
      → i < suc a.info.next_unspent_idx
  inserted-inside i u at = elim (set_cases a.info.next_unspent_idx i entry u a.unspents at) [
    | inl (here, same) ↦ omega (arith, here)
    | inr (other, old) ↦ omega (arith, inv.inside i u old)
  ]

  inserted-listed :
      (o : TxOutputKey) (i : ℕ)
      → find o (set out a.info.next_unspent_idx a.unspent_idxs) ≡ some i
      → (u : AddressUnspent) × (find i (set a.info.next_unspent_idx entry a.unspents) ≡ some u)
        × (key_of u ≡ o)
  inserted-listed o i at = elim (Bool-cases (key_beq out o)) [
    | inl mine ↦
        let here : some i ≡ some a.info.next_unspent_idx =
          sym at ∙ ground (arith, mine, find-set out o a.info.next_unspent_idx a.unspent_idxs) in
        (
          entry,
          ground (arith, here, find-set a.info.next_unspent_idx i entry a.unspents),
          (key_beq_iff out o).0 mine,
        )
    | inr other ↦
        let old : find o a.unspent_idxs ≡ some i =
          ground (arith, other, find-set out o a.info.next_unspent_idx a.unspent_idxs) in
        let (u, there, named) = inv.listed o i old in
        (
          u,
          ground (
            arith,
            there,
            inv.inside i u there,
            find-set a.info.next_unspent_idx i entry a.unspents,
          ),
          named,
        )
  ]

  pub insert_address_unspent-IsUnspent : IsUnspent (insert_address_unspent value out position2 a)
  unfolding insert_address_unspent
  insert_address_unspent-IsUnspent = record {
    inside = inserted-inside;
    indexed = inserted-indexed;
    listed = inserted-listed;
    counted =
        ap (λ x. x +ℤ pos 1) inv.counted
        ∙ sym (total-set_end each a.info.next_unspent_idx entry a.unspents);
  }

-- `b` is the address after the output was taken out: both indexes have forgotten it, they keep what they
-- say of the others, and the counter falls by one.
pub record Spent (out : TxOutputKey) (a b : Address) : Type 0 where
  pub run : remove_unspent_output out a ≡ ok b
  pub unspent : IsUnspent b
  pub gone : find out b.unspent_idxs ≡ none
  pub others : (o : TxOutputKey) → o ≢ out → find o b.unspent_idxs ≡ find o a.unspent_idxs
  pub info : b.info ≡ record a.info { unspent_tx_count = a.info.unspent_tx_count -ℤ pos 1 }

module _ (out : TxOutputKey) (index : ℕ) (a : Address) (inv : IsUnspent a)
    (at : find out a.unspent_idxs ≡ some index) where
  abbrev spent : Address
  spent = record a {
    info = record a.info { unspent_tx_count = a.info.unspent_tx_count -ℤ pos 1 };
    unspents = erase index a.unspents;
    unspent_idxs = erase out a.unspent_idxs;
  }

  spent-kept :
      (i : ℕ) (u : AddressUnspent)
      → find i (erase index a.unspents) ≡ some u
      → find i a.unspents ≡ some u
  spent-kept i u now = ground (arith, find-erase index i a.unspents)

  spent-indexed :
      (i : ℕ) (u : AddressUnspent)
      → find i (erase index a.unspents) ≡ some u
      → find (key_of u) (erase out a.unspent_idxs) ≡ some i
  spent-indexed i u now =
      let there : find (key_of u) a.unspent_idxs ≡ some i = inv.indexed i u (spent-kept i u now) in
      elim (Bool-cases (key_beq out (key_of u))) [
        | inl mine ↦
            let same : some index ≡ some i =
              sym at
              ∙ ap (λ x. find x a.unspent_idxs) ((key_beq_iff out (key_of u)).0 mine)
              ∙ there in
            let no : ⊥ = ground (arith, same, now, find-erase index i a.unspents) in elim no [ ]
        | inr other ↦ ground (arith, other, there, find-erase out (key_of u) a.unspent_idxs)
      ]

  spent-listed :
      (o : TxOutputKey) (i : ℕ)
      → find o (erase out a.unspent_idxs) ≡ some i
      → (u : AddressUnspent) × (find i (erase index a.unspents) ≡ some u) × (key_of u ≡ o)
  spent-listed o i now =
      let there : find o a.unspent_idxs ≡ some i =
        ground (arith, now, find-erase out o a.unspent_idxs) in
      let apart : key_beq out o ≡ false = ground (arith, now, find-erase out o a.unspent_idxs) in
      let (u, old, named) = inv.listed o i there in
      let (w, here, mine) = inv.listed out index at in
      elim (Bool-cases (index == i)) [
        | inl one ↦
            let same : some w ≡ some u =
              sym here ∙ ap (λ x. find x a.unspents) ((==_iff index i).0 one) ∙ old in
            let equal : w ≡ u = cc in
            let no : ⊥ =
              ground (arith, apart, (key_beq_iff out o).1 (sym mine ∙ ap key_of equal ∙ named)) in
            elim no [ ]
        | inr other ↦ (u, ground (arith, other, old, find-erase index i a.unspents), named)
      ]

  spent-IsUnspent : IsUnspent spent
  spent-IsUnspent = record {
    inside = λ i u now. inv.inside i u (spent-kept i u now);
    indexed = spent-indexed;
    listed = spent-listed;
    counted =
        (let (w, here, mine) = inv.listed out index at in
          let less : total each a.info.next_unspent_idx (erase index a.unspents) +ℤ pos 1
              ≡ total each a.info.next_unspent_idx a.unspents =
            total-erase each a.info.next_unspent_idx index w a.unspents (inv.inside index w here)
              here in
          omega (int_laws, same_parts less, same_parts inv.counted));
  }

  -- In well-formed unspent outputs, spending one that is there returns: both indexes forget it
  -- and still lead to each other, the index by outputs keeps the others, and the counter, which
  -- falls by one, counts the entries.
  pub remove_unspent_output-Spent : (b : Address) × Spent out a b
  unfolding remove_unspent_output delete_address_unspent
  remove_unspent_output-Spent = (
    spent,
    record {
      run = >>=-ok (ap get at) _;
      unspent = spent-IsUnspent;
      gone = ground (arith, find-erase out out a.unspent_idxs);
      others = λ o apart. ground (arith, key_beq_iff out o, apart, find-erase out o a.unspent_idxs);
      info = refl;
    },
  )

pub new_address-IsUnspent : IsUnspent new_address
unfolding new_address init total find
new_address-IsUnspent = record {
  inside = λ i u at. ground arith;
  indexed = λ i u at. ground arith;
  listed = λ out i at. (let no : ⊥ = ground arith in elim no [ ]);
  counted = refl;
}
