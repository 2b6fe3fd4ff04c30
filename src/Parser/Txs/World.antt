-- ===== src/Parser/Txs/World.antt =====
-- The database of tparser against the log: what 0_txlogs2 has said of each transaction, and the
-- confirmed transactions of each address in their order.
use explorer_kv.Prelude.{
  Bool, true, false, Option, some, List, [], ◌≡◌, ◌≢◌, refl, sym, ap, ◌∙◌, subst, ◌==◌, ==_iff, inl,
  inr, Bool-cases, Option-cases, if◌then◌else◌,
}
use explorer_kv.Prelude.Int.{ℤ}
use explorer_kv.Prelude.Result.{ok}
use explorer_kv.Transaction.{Hash}
use explorer_kv.TxLogs2.{Ledger, Status, LogType, after, from, is_unconfirmed}
use explorer_kv.OrdMap.{Map, find, has, IsSorted}
use explorer_kv.OrdMap.Order.{nat_ord}
use explorer_kv.Parser.Address.{Address}
use explorer_kv.Parser.AddressTxs.Ledger.{Represents}
use explorer_kv.Parser.AddressTxs.Run.{
  AddressLog, type_of, hash_of, restack, InOrder, handle_address_log, handle_address_log-Represents,
  new_address-Represents,
}
use explorer_kv.Parser.Kvdb.{Name, Kvdb, address_at, or_new, update_address, for_each}
use explorer_kv.Parser.Txs.Addresses.{for_each-Visited, Visited}

-- The confirmed transactions of each address, the last one first.
abbrev pub Stacks : Type 0
Stacks = Name → List Hash

-- `touches name h`: the transaction moves a balance of the address.
module _ (touches : Name → Hash → Bool) where
  -- the log as the address sees it
  abbrev pub seen_by : Name → Ledger → Ledger
  seen_by name s h = if touches name h then s h else Status.absent

  -- Each address holds the transactions that touch it and are not absent, with its confirmed ones in
  -- the order of its stack; a transaction that is not absent has an object, and the unconfirmed ones
  -- are listed.
  pub record World (stacks : Stacks) (s : Ledger) (k : Kvdb) : Type 0 where
    pub at : (name : Name) → Represents (stacks name) (seen_by name s) (address_at name k)
    pub objects : (h : Hash) → s h ≢ Status.absent → has h k.tx_objects ≡ true
    pub pool : (h : Hash) → has h k.unconfirmed_txs ≡ is_unconfirmed (s h)

  -- before the first entry of the log
  pub empty-World :
      (k : Kvdb)
      → k.addresses ≡ []
      → k.unconfirmed_txs ≡ []
      → World (λ name. []) (λ h. Status.absent) k
  unfolding address_at find
  empty-World k no_address no_tx = record {
    at = λ name.
        subst (λ x. Represents [] x (address_at name k)) (λ i h. silent name h i)
          (subst (λ x. Represents [] (λ h. Status.absent) (or_new (find name x))) (sym no_address)
            new_address-Represents);
    objects = λ h there. (let no : ⊥ = there refl in elim no [ ]);
    pool = λ h. ap (has h) no_tx;
  }
    where
      silent : (name : Name) (h : Hash) → Status.absent ≡ seen_by name (λ h. Status.absent) h
      silent name h = elim (Bool-cases (touches name h)) [
        | inl there ↦ rw (there) refl
        | inr not_there ↦ rw (not_there) refl
      ]

  module _ (name : Name) (s : Ledger) (e : LogType) (h : Hash) where
    seen_touched : touches name h ≡ true → after (seen_by name s) e h ≡ seen_by name (after s e h)
    seen_touched touched = λ i j. pointwise j i
      where
        pointwise : (j : Hash) → after (seen_by name s) e h j ≡ seen_by name (after s e h) j
        pointwise j = elim (Bool-cases (h == j)) [
          | inl same ↦
              let there : touches name j ≡ true =
                subst (λ x. touches name x ≡ true) ((==_iff h j).0 same) touched in
              rw (same, there) refl
          | inr other ↦ rw (other) refl
        ]

    seen_untouched : touches name h ≡ false → seen_by name s ≡ seen_by name (after s e h)
    seen_untouched untouched = λ i j. pointwise j i
      where
        pointwise : (j : Hash) → seen_by name s j ≡ seen_by name (after s e h) j
        pointwise j = elim (Bool-cases (h == j)) [
          | inl same ↦
              let there : touches name j ≡ false =
                subst (λ x. touches name x ≡ false) ((==_iff h j).0 same) untouched in
              rw (there) refl
          | inr other ↦ rw (other) refl
        ]

  -- the stacks after an entry of the log that touches the address
  abbrev pub moved : (List Hash → List Hash) → Hash → Stacks → Stacks
  moved move h stacks name = if touches name h then move (stacks name) else stacks name

  -- One entry of the log, in the loop over the balances of its transaction.
  module _ (printed : Hash → Option Hash) (own : (h j : Hash) → printed h ≡ some j → j ≡ h)
      (entry : ℤ → AddressLog) (kind : LogType) (h : Hash) (move : List Hash → List Hash)
      (is_kind : (v : ℤ) → type_of (entry v) ≡ kind) (is_hash : (v : ℤ) → hash_of (entry v) ≡ h)
      (is_move : (v : ℤ) (stack : List Hash) → restack (entry v) stack ≡ move stack)
      (stacks : Stacks) (s : Ledger) (k : Kvdb)
      (held : (name : Name) → Represents (stacks name) (seen_by name s) (address_at name k))
      (balance : Map Name ℤ) (sorted : IsSorted balance)
      (agrees : (name : Name) → has name balance ≡ touches name h) (start : s h ≡ from kind)
      (order : (name : Name) (v : ℤ)
        → find name balance ≡ some v
        → InOrder (entry v) (stacks name)) where
    abbrev Held : Name → ℤ → Address → Type 0
    Held name v b = Represents (move (stacks name)) (after (seen_by name s) kind h) b

    touched : (name : Name) (v : ℤ) → find name balance ≡ some v → touches name h ≡ true
    touched name v at = sym (agrees name) ∙ rw (at) refl

    step :
        (name : Name) (v : ℤ)
        → find name balance ≡ some v
        → (b : Address) × (handle_address_log printed (entry v) (address_at name k) ≡ ok b)
          × Held name v b
    step name v at =
        let begins : seen_by name s (hash_of (entry v)) ≡ from (type_of (entry v)) =
          ap (seen_by name s) (is_hash v)
          ∙ (rw (touched name v at) start)
          ∙ ap from (sym (is_kind v)) in
        let (b, ran, r) =
          handle_address_log-Represents printed own (entry v) (stacks name) (seen_by name s)
            (address_at name k) (held name) begins (order name v at) in
        (
          b,
          ran,
          subst (λ x. Represents x (after (seen_by name s) kind h) b) (is_move v (stacks name))
              (subst
                (λ x.
                  Represents (restack (entry v) (stacks name)) (after (seen_by name s) kind x) b)
                (is_hash v)
                (subst
                  (λ x.
                    Represents (restack (entry v) (stacks name))
                      (after (seen_by name s) x (hash_of (entry v))) b)
                  (is_kind v) r)),
        )

    pub visit-Represents :
        (k' : Kvdb) × (for_each
            (λ e. update_address (handle_address_log printed (entry e.1)) e.0)
            balance
            k
          ≡ ok k')
        × (k' ≡ record k { addresses = k'.addresses })
        × ((name : Name)
            → Represents
                (moved move h stacks name)
                (seen_by name (after s kind h))
                (address_at name k'))
    visit-Represents =
        let (k', ran, visited) =
          for_each-Visited (λ e. handle_address_log printed (entry e.1)) Held balance k sorted
            step in
        (k', ran, visited.same, seen k' visited)
      where
        seen :
            (k' : Kvdb)
            → Visited Held balance k k'
            → (name : Name)
            → Represents
                (moved move h stacks name)
                (seen_by name (after s kind h))
                (address_at name k')
        seen k' visited name = elim (Option-cases (find name balance)) [
          | inl gone ↦
              let no : touches name h ≡ false = sym (agrees name) ∙ rw (gone) refl in
              let stays : stacks name ≡ moved move h stacks name = rw (no) refl in
              subst (λ x. Represents x (seen_by name (after s kind h)) (address_at name k')) stays
                (subst (λ x. Represents (stacks name) x (address_at name k'))
                  (seen_untouched name s kind h no)
                  (subst (λ x. Represents (stacks name) (seen_by name s) x)
                    (sym (visited.others name gone)) (held name)))
          | inr (v, at) ↦
              let there : touches name h ≡ true = touched name v at in
              let goes : move (stacks name) ≡ moved move h stacks name = rw (there) refl in
              subst (λ x. Represents x (seen_by name (after s kind h)) (address_at name k')) goes
                (subst (λ x. Represents (move (stacks name)) x (address_at name k'))
                  (seen_touched name s kind h there) (visited.made name v at))
        ]
