-- ===== src/NotifyLog/Subscriptions/Mirror.antt =====
-- The table in memory and the rows of app_subcribe name the same subscriptions.
use explorer_kv.Prelude.{
  suc, Bool, true, false, Option, none, some, List, [], ◌∷◌, ◌++◌, ◌&&◌, ◌||◌, not, if◌then◌else◌,
  ◌==◌, ==_iff, ◌≡◌, refl, ap, ◌∙◌, arith, All, Bool-cases, Option-cases, inl, inr,
}
use explorer_kv.Prelude.Int.{ℤ, beq_ℤ, beq_ℤ_iff}
use explorer_kv.Prelude.Result.{Result, ok, ◌>>=◌, >>=-ok}
use explorer_kv.OrdMap.{set, erase}
use explorer_kv.OrdMap.Laws.{find-set, find-erase}
use explorer_kv.OrdMap.Order.{nat_ord, int_ord}
use explorer_kv.Parser.Kvdb.{Name}
use explorer_kv.NotifyLog.Subscriptions.{
  Table, Row, Notify, Reader, apps_of, is_subscribed, count_rows, delete_rows, insert_row,
  insert_address, remove_address, Request, serve,
}

-- Each subscription in memory has one row, and there is no other row.
pub record Mirrors (n : Notify) : Type 0 where
  pub one_row :
      (app : ℤ) (a : Name)
      → count_rows app a n.app_subcribe ≡ (if is_subscribed app a n.address_table then 1 else 0)

count_rows-append :
    (app : ℤ) (a : Name) (j : ℤ) (b : Name) (rows : List Row)
    → count_rows j b (rows ++ (app, a) ∷ [])
      ≡ (if beq_ℤ app j && a == b then suc (count_rows j b rows) else count_rows j b rows)
unfolding count_rows
count_rows-append app a j b [] = refl
count_rows-append app a j b ((i, x) ∷ rows) = ground (arith, count_rows-append app a j b rows)

count_rows-delete_rows :
    (app : ℤ) (a : Name) (j : ℤ) (b : Name) (rows : List Row)
    → count_rows j b (delete_rows app a rows)
      ≡ (if beq_ℤ app j && a == b then 0 else count_rows j b rows)
unfolding count_rows delete_rows
count_rows-delete_rows app a j b [] = ground arith
count_rows-delete_rows app a j b ((i, x) ∷ rows) =
    ground (
      arith,
      count_rows-delete_rows app a j b rows,
      beq_ℤ_iff i app,
      beq_ℤ_iff i j,
      beq_ℤ_iff app j,
    )

is_subscribed-set :
    (app : ℤ) (a : Name) (j : ℤ) (b : Name) (table : Table)
    → is_subscribed j b (set a (set app tt (apps_of a table)) table)
      ≡ (beq_ℤ app j && a == b || is_subscribed j b table)
unfolding is_subscribed apps_of
is_subscribed-set app a j b table = ground (
  arith,
  find-set a b (set app tt (apps_of a table)) table,
  find-set app j tt (apps_of a table),
  ==_iff a b,
)

is_subscribed-erase :
    (app : ℤ) (a : Name) (j : ℤ) (b : Name) (table : Table)
    → is_subscribed j b (set a (erase app (apps_of a table)) table)
      ≡ (not (beq_ℤ app j && a == b) && is_subscribed j b table)
unfolding is_subscribed apps_of
is_subscribed-erase app a j b table = ground (
  arith,
  find-set a b (erase app (apps_of a table)) table,
  find-erase app j (apps_of a table),
  ==_iff a b,
)

-- what was read is the address
abbrev pub spells : Option Name → Name → Bool
spells none b = false
spells (some a) b = a == b

-- the subscription after a request, for an application and an address
abbrev pub wanted : Reader → Request → ℤ → Name → Bool → Bool
wanted read (Request.subscribe app address) j b before =
    beq_ℤ app j && spells (read address) b || before
wanted read (Request.unsubscribe app address) j b before =
    not (beq_ℤ app j && spells (read address) b) && before

-- a text that is the printed form of the address that it spells, if it spells one
abbrev pub IsPrinted : Reader → Name → Type 0
IsPrinted read address = (a : Name) → read address ≡ some a → a ≡ address

-- A request to remove names the address as it is printed.
abbrev pub IsPlain : Reader → Request → Type 0
IsPlain read (Request.subscribe app address) = Unit
IsPlain read (Request.unsubscribe app address) = IsPrinted read address

-- what a request that was served leaves
record Served (read : Reader) (request : Request) (n : Notify) : Type 0 where
  answer : Bool
  after : Notify
  run : serve read request n ≡ ok (answer, after)
  mirrors : Mirrors after
  effect :
      (j : ℤ) (b : Name)
      → is_subscribed j b after.address_table
        ≡ wanted read request j b (is_subscribed j b n.address_table)

module _ (read : Reader) (app : ℤ) (address : Name) (n : Notify) (m : Mirrors n) where
  insert-Served : Served read (Request.subscribe app address) n
  unfolding serve insert_address insert_row
  insert-Served = elim (Option-cases (read address)) [
    | inl e ↦ record {
      answer = false;
      after = n;
      run = rw (e, insert_address) refl;
      mirrors = m;
      effect = λ j b. rw (e, wanted) (ground arith);
    }
    | inr (a, e) ↦ elim (Bool-cases (is_subscribed app a n.address_table)) [
      | inl old ↦ record {
        answer = false;
        after = n;
        run = rw (e, insert_address) (rw old refl);
        mirrors = m;
        effect = λ j b. rw (e, wanted) (ground (arith, beq_ℤ_iff app j, ==_iff a b));
      }
      | inr new ↦
          let fresh : count_rows app a n.app_subcribe ≡ 0 = ground (arith, m.one_row app a) in
          record {
            answer = true;
            after = record {
              address_table = set a (set app tt (apps_of a n.address_table)) n.address_table;
              app_ids = set app tt n.app_ids;
              app_subcribe = n.app_subcribe ++ (app, a) ∷ [];
            };
            run = rw (e, insert_address) (rw new (rw fresh refl));
            mirrors = record {
              one_row = λ j b. ground (
                arith,
                count_rows-append app a j b n.app_subcribe,
                is_subscribed-set app a j b n.address_table,
                m.one_row j b,
                beq_ℤ_iff app j,
                ==_iff a b,
              );
            };
            effect = λ j b. rw (e, wanted) (is_subscribed-set app a j b n.address_table);
          }
    ]
  ]

  remove-Served : IsPrinted read address → Served read (Request.unsubscribe app address) n
  unfolding serve remove_address
  remove-Served printed = elim (Option-cases (read address)) [
    | inl e ↦ record {
      answer = false;
      after = n;
      run = rw (e, remove_address) refl;
      mirrors = m;
      effect = λ j b. rw (e, wanted) (ground arith);
    }
    | inr (a, e) ↦ elim (Bool-cases (is_subscribed app a n.address_table)) [
      | inr other ↦ record {
        answer = false;
        after = n;
        run = rw (e, remove_address) (rw other refl);
        mirrors = m;
        effect = λ j b. rw (e, wanted) (ground (arith, beq_ℤ_iff app j, ==_iff a b));
      }
      | inl old ↦
          let one : count_rows app a n.app_subcribe ≡ 1 = ground (arith, m.one_row app a) in
          let same : a ≡ address = printed a e in
          record {
            answer = true;
            after = record {
              address_table =
                  set address (erase app (apps_of address n.address_table)) n.address_table;
              app_ids = n.app_ids;
              app_subcribe = delete_rows app a n.app_subcribe;
            };
            run = rw (e, remove_address) (rw old (rw one refl));
            mirrors = record {
              one_row = λ j b. ground (
                arith,
                count_rows-delete_rows app a j b n.app_subcribe,
                is_subscribed-erase app address j b n.address_table,
                m.one_row j b,
              );
            };
            effect = λ j b.
                rw (e, wanted)
                  (ground (arith, is_subscribed-erase app address j b n.address_table));
          }
    ]
  ]

serve-Served :
    (read : Reader) (request : Request) (n : Notify)
    → Mirrors n
    → IsPlain read request
    → Served read request n
serve-Served read (Request.subscribe app address) n m plain = insert-Served read app address n m
serve-Served read (Request.unsubscribe app address) n m plain =
    remove-Served read app address n m plain

-- requests, one after another
unfoldable pub serve_all : Reader → List Request → Notify → Result Notify
serve_all read [] n = ok n
serve_all read (request ∷ requests) n =
    serve read request n >>= λ served. serve_all read requests served.1

-- the subscription that they leave
unfoldable pub wanted_all : Reader → List Request → ℤ → Name → Bool → Bool
wanted_all read [] j b before = before
wanted_all read (request ∷ requests) j b before =
    wanted_all read requests j b (wanted read request j b before)

-- Where the table in memory and the rows of app_subcribe name the same subscriptions, once
-- each, and each request to remove names its address as it is printed, a sequence of requests
-- is served without an exception, the two still name the same subscriptions, and an address is
-- subscribed exactly as the requests, in their order, ask.
pub serve_all-Mirrors :
    (read : Reader) (requests : List Request) (n : Notify)
    → Mirrors n
    → All (IsPlain read) requests
    → (after : Notify) × (serve_all read requests n ≡ ok after)
      × Mirrors after
      × ((j : ℤ) (b : Name)
          → is_subscribed j b after.address_table
            ≡ wanted_all read requests j b (is_subscribed j b n.address_table))
unfolding serve_all wanted_all
serve_all-Mirrors read [] n m plain = (n, refl, m, λ j b. refl)
serve_all-Mirrors read (request ∷ requests) n m (first, plain) =
    let s = serve-Served read request n m first in
    let (after, run, mirrors, effect) = serve_all-Mirrors read requests s.after s.mirrors plain in
    (
      after,
      >>=-ok s.run _ ∙ run,
      mirrors,
      λ j b. effect j b ∙ ap (wanted_all read requests j b) (s.effect j b),
    )
