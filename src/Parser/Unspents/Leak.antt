-- ===== src/Parser/Unspents/Leak.antt =====
-- jiexi/src/Parser.cc: what acceptTx and rejectTx together do to the unspent outputs of an address that
-- the transaction pays.
use explorer_kv.Prelude.{
  ℕ, suc, subst, none, some, ◌≡◌, refl, ap, ◌∙◌, arith, inl, inr, Option-cases,
}
use explorer_kv.Prelude.Int.{ℤ, pos, ◌+ℤ◌, int_laws, same_parts, +ℤ_cancel}
use explorer_kv.Prelude.Result.{ok, err, exception, >>=-ok, >>=-eq-ok, ok-injective}
use explorer_kv.Transaction.{TxOutputKey, key_ord, key_beq_iff}
use explorer_kv.OrdMap.{find, set, erase}
use explorer_kv.OrdMap.Order.{nat_ord}
use explorer_kv.OrdMap.Laws.{find-set, find-erase}
use explorer_kv.Parser.Address.{AddressUnspent, Address, get}
use explorer_kv.Parser.AddressTxs.Totals.{total, total-set_end, total-erase}
use explorer_kv.Parser.Unspents.{
  new_unspent, insert_address_unspent, delete_address_unspent, remove_unspent_output,
}
use explorer_kv.Parser.Unspents.Invariant.{IsUnspent, each}

-- the same entries, and the same counters but for the two of unspent outputs
pub record SameOutputs (a b : Address) : Type 0 where
  pub unspents : (i : ℕ) → find i b.unspents ≡ find i a.unspents
  pub unspent_idxs : (o : TxOutputKey) → find o b.unspent_idxs ≡ find o a.unspent_idxs
  pub next_unspent_idx : b.info.next_unspent_idx ≡ suc a.info.next_unspent_idx

-- an output that was taken out
gone_after :
    (out : TxOutputKey) (a b : Address)
    → remove_unspent_output out a ≡ ok b
    → find out b.unspent_idxs ≡ none
unfolding remove_unspent_output delete_address_unspent
gone_after out a b run =
    let (index, at, left) = >>=-eq-ok (get (find out a.unspent_idxs)) _ run in
    subst (λ x. find out x.unspent_idxs ≡ none) (ok-injective left)
      (ground (arith, key_beq_iff out out, find-erase out out a.unspent_idxs))

-- A removal of an output that has just been removed throws.
pub remove_unspent_output-twice :
    (out : TxOutputKey) (a b : Address)
    → remove_unspent_output out a ≡ ok b
    → remove_unspent_output out b ≡ err exception
unfolding remove_unspent_output delete_address_unspent
remove_unspent_output-twice out a b run = rw (gone_after out a b run) refl

module _ (value : ℤ) (out : TxOutputKey) (position2 : ℕ) (a : Address) (inv : IsUnspent a)
    (fresh : find out a.unspent_idxs ≡ none) where
  abbrev entry : AddressUnspent
  entry = new_unspent value out position2

  abbrev emptied : ℤ → Address
  emptied count = record a {
    info = record a.info {
      next_unspent_idx = suc a.info.next_unspent_idx;
      unspent_tx_count = count;
    };
    unspents = erase a.info.next_unspent_idx (set a.info.next_unspent_idx entry a.unspents);
    unspent_idxs = erase out (set out a.info.next_unspent_idx a.unspent_idxs);
  }

  nothing_there : find a.info.next_unspent_idx a.unspents ≡ none
  nothing_there = elim (Option-cases (find a.info.next_unspent_idx a.unspents)) [
    | inl gone ↦ gone
    | inr (u, at) ↦ let no : ⊥ = omega (arith, inv.inside _ u at) in elim no [ ]
  ]

  emptied-SameOutputs : (count : ℤ) → SameOutputs a (emptied count)
  emptied-SameOutputs count = record {
    unspents = λ i. ground (
      arith,
      nothing_there,
      find-erase a.info.next_unspent_idx i (set a.info.next_unspent_idx entry a.unspents),
      find-set a.info.next_unspent_idx i entry a.unspents,
    );
    unspent_idxs = λ o. ground (
      arith,
      fresh,
      key_beq_iff out o,
      find-erase out o (set out a.info.next_unspent_idx a.unspent_idxs),
      find-set out o a.info.next_unspent_idx a.unspent_idxs,
    );
    next_unspent_idx = refl;
  }

  there : find out (set out a.info.next_unspent_idx a.unspent_idxs) ≡ some a.info.next_unspent_idx
  there =
      ground (arith, key_beq_iff out out, find-set out out a.info.next_unspent_idx a.unspent_idxs)

  delete-run :
      delete_address_unspent out (insert_address_unspent value out position2 a)
      ≡ ok (emptied (a.info.unspent_tx_count +ℤ pos 1))
  unfolding insert_address_unspent delete_address_unspent
  delete-run = >>=-ok (ap get there) _

  remove-run :
      remove_unspent_output out (insert_address_unspent value out position2 a)
      ≡ ok (emptied a.info.unspent_tx_count)
  unfolding insert_address_unspent remove_unspent_output delete_address_unspent
  remove-run =
      >>=-ok (ap get there) _ ∙ ap (λ x. ok (emptied x)) (+ℤ_cancel a.info.unspent_tx_count (pos 1))

  -- Spending an output that has just come restores the entries and the counter.
  pub remove_unspent_output-insert_address_unspent :
      (b : Address) × (remove_unspent_output out (insert_address_unspent value out position2 a)
        ≡ ok b)
      × SameOutputs a b
      × (b.info.unspent_tx_count ≡ a.info.unspent_tx_count)
  remove_unspent_output-insert_address_unspent =
      (emptied a.info.unspent_tx_count, remove-run, emptied-SameOutputs _, refl)

  empty_total :
      total each
        (suc a.info.next_unspent_idx)
        (erase a.info.next_unspent_idx (set a.info.next_unspent_idx entry a.unspents))
      ≡ total each a.info.next_unspent_idx a.unspents
  empty_total =
      let n = a.info.next_unspent_idx in
      let m = set n entry a.unspents in
      let less : total each (suc n) (erase n m) +ℤ pos 1 ≡ total each (suc n) m =
        total-erase each (suc n) n entry m (omega arith)
          (ground (arith, find-set n n entry a.unspents)) in
      let more : total each (suc n) m ≡ total each n a.unspents +ℤ pos 1 =
        total-set_end each n entry a.unspents in
      omega (int_laws, same_parts less, same_parts more)

  -- Deleting a new output as a rejection does, right after it came to well-formed unspent
  -- outputs, returns and restores the entries, and leaves the counter of unspent outputs one
  -- too high, so that the address is not well-formed.
  pub delete_address_unspent-insert_address_unspent :
      (b : Address) × (delete_address_unspent out (insert_address_unspent value out position2 a)
        ≡ ok b)
      × SameOutputs a b
      × (b.info.unspent_tx_count ≡ a.info.unspent_tx_count +ℤ pos 1)
      × (¬ IsUnspent b)
  delete_address_unspent-insert_address_unspent = (
    emptied (a.info.unspent_tx_count +ℤ pos 1),
    delete-run,
    emptied-SameOutputs _,
    refl,
    λ again. omega (int_laws, same_parts (again.counted ∙ empty_total), same_parts inv.counted),
  )
