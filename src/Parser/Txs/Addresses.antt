-- ===== src/Parser/Txs/Addresses.antt =====
-- A loop of Parser.cc over the addresses of a transaction: each address is changed once, on its own.
use explorer_kv.Prelude.{
  false, none, some, List, [], ◌∷◌, ◌≡◌, refl, sym, ap, ◌∙◌, subst, arith, ◌==◌, ==_iff, inl, inr,
  Bool-cases, if◌then◌else◌,
}
use explorer_kv.Prelude.Int.{ℤ}
use explorer_kv.Prelude.Result.{Result, ok, >>=-ok}
use explorer_kv.OrdMap.{Map, find, set, Above, IsSorted}
use explorer_kv.OrdMap.Order.{nat_ord}
use explorer_kv.OrdMap.Laws.{find-set}
use explorer_kv.OrdMap.Sorted.{set-IsSorted}
use explorer_kv.Parser.Address.{Address}
use explorer_kv.Parser.Kvdb.{Name, CTxOut, CTransaction, Kvdb, address_at, update_address, for_each}
use explorer_kv.Parser.Balance.{
  add_balance, add_balances, take_outputs, give_outputs, address_balance,
}

-- the balances of a transaction name each address once
add_balances-IsSorted :
    (value : ℤ) (names : List Name) (m : Map Name ℤ)
    → IsSorted m
    → IsSorted (add_balances value names m)
unfolding add_balances add_balance
add_balances-IsSorted value [] m s = s
add_balances-IsSorted value (name ∷ names) m s =
    add_balances-IsSorted value names _ (set-IsSorted name _ m s)

take_outputs-IsSorted :
    (outs : List CTxOut) (m : Map Name ℤ) → IsSorted m → IsSorted (take_outputs outs m)
unfolding take_outputs
take_outputs-IsSorted [] m s = s
take_outputs-IsSorted (out ∷ outs) m s =
    take_outputs-IsSorted outs _ (add_balances-IsSorted _ out.addresses m s)

give_outputs-IsSorted :
    (outs : List CTxOut) (m : Map Name ℤ) → IsSorted m → IsSorted (give_outputs outs m)
unfolding give_outputs
give_outputs-IsSorted [] m s = s
give_outputs-IsSorted (out ∷ outs) m s =
    give_outputs-IsSorted outs _ (add_balances-IsSorted _ out.addresses m s)

pub address_balance-IsSorted :
    (prev : List CTxOut) (tx : CTransaction) → IsSorted (address_balance prev tx)
unfolding address_balance
address_balance-IsSorted prev tx =
    give_outputs-IsSorted tx.vout _ (take_outputs-IsSorted prev [] tt)

pub address_at-update :
    (name other : Name) (a : Address) (k : Kvdb)
    → address_at other (record k { addresses = set name a k.addresses })
      ≡ (if name == other then a else address_at other k)
unfolding address_at
address_at-update name other a k = ground (arith, find-set name other a k.addresses)

update_run :
    (f : Address → Result Address) (name : Name) (k : Kvdb) {b : Address}
    → f (address_at name k) ≡ ok b
    → update_address f name k ≡ ok (record k { addresses = set name b k.addresses })
unfolding update_address
update_run f name k ran = >>=-ok ran _

-- a key below all others is not among them
no_entry : (name : Name) → find {K = Name} {V = ℤ} name [] ≡ none
unfolding find
no_entry name = refl

find-Above : (name : Name) (m : Map Name ℤ) → Above name m → find name m ≡ none
unfolding find
find-Above name [] above = refl
find-Above name ((j, v) ∷ m) above = ground (arith, above.0, find-Above name m above.1)

find_cons :
    (n name : Name) (v : ℤ) (m : Map Name ℤ)
    → find name ((n, v) ∷ m) ≡ (if n == name then some v else find name m)
unfolding find
find_cons n name v m = ground arith

-- an entry behind the first one has another key
behind :
    (n name : Name) (v w : ℤ) (m : Map Name ℤ)
    → Above n m
    → find name m ≡ some w
    → ((n == name) ≡ false) × (find name ((n, v) ∷ m) ≡ some w)
behind n name v w m above at =
    let apart : (n == name) ≡ false = ground (arith, at, find-Above n m above) in
    (apart, ground (arith, apart, at, find_cons n name v m))

-- What a loop leaves: each address of the map with what its step makes of it, and the others as they
-- were.
pub record Visited (Made : Name → ℤ → Address → Type 0) (m : Map Name ℤ) (k k' : Kvdb)
    : Type 0 where
  pub made : (name : Name) (v : ℤ) → find name m ≡ some v → Made name v (address_at name k')
  pub others : (name : Name) → find name m ≡ none → address_at name k' ≡ address_at name k
  pub same : k' ≡ record k { addresses = k'.addresses }

module _ (f : Name × ℤ → Address → Result Address) (Made : Name → ℤ → Address → Type 0) where
  abbrev visit : Name × ℤ → Kvdb → Result Kvdb
  visit e = update_address (f e) e.0

  pub for_each-Visited :
      (m : Map Name ℤ) (k : Kvdb)
      → IsSorted m
      → ((name : Name) (v : ℤ)
          → find name m ≡ some v
          → (b : Address) × (f (name, v) (address_at name k) ≡ ok b) × Made name v b)
      → (k' : Kvdb) × (for_each visit m k ≡ ok k') × Visited Made m k k'
  unfolding for_each
  for_each-Visited [] k sorted step = (
    k,
    refl,
    record {
      made = λ name v at. (let no : ⊥ = nothing name v at in elim no [ ]);
      others = λ name at. refl;
      same = refl;
    },
  )
    where
      nothing : (name : Name) (v : ℤ) → find name [] ≡ some v → ⊥
      nothing name v at = ground (arith, no_entry name, at)
  for_each-Visited ((n, v) ∷ m) k (above, sorted) step =
      let (b, ran, now) = step n v (ground (arith, find_cons n n v m)) in
      let k1 : Kvdb = record k { addresses = set n b k.addresses } in
      let (k', rest, visited) = for_each-Visited m k1 sorted λ name w at.
        let (apart, there) = behind n name v w m above at in
        let (c, went, made) = step name w there in
        (c, ap (f (name, w)) (address_at-update n name b k ∙ rw (apart) refl) ∙ went, made) in
      (
        k',
        >>=-ok (update_run (f (n, v)) n k ran) _ ∙ rest,
        record {
          made = λ name w at. elim (Bool-cases (n == name)) [
            | inl here ↦
                let same : n ≡ name = (==_iff n name).0 here in
                let value : w ≡ v = ground (arith, at, here, find_cons n name v m) in
                let stays : address_at name k' ≡ b =
                  visited.others name (ap (λ x. find x m) (sym same) ∙ find-Above n m above)
                  ∙ address_at-update n name b k
                  ∙ rw (here) refl in
                subst (Made name w) (sym stays)
                  (subst (λ x. Made x w b) same (subst (λ x. Made n x b) (sym value) now))
            | inr other ↦ visited.made name w (ground (arith, at, other, find_cons n name v m))
          ];
          others = λ name at.
              visited.others name (ground (arith, at, find_cons n name v m))
              ∙ (address_at-update n name b k
                  ∙ (let apart : (n == name) ≡ false = ground (arith, at, find_cons n name v m) in
                      rw (apart) refl));
          same = visited.same;
        },
      )
