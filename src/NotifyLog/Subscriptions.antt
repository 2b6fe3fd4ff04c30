-- ===== src/NotifyLog/Subscriptions.antt =====
-- jiexi/src/NotifyLog.{h,cc}, Notify: the addresses that an application subscribes to, in memory and
-- in the table app_subcribe.
pub mod Mirror
use explorer_kv.Prelude.{
  ℕ, suc, Bool, true, false, Option, none, some, List, [], ◌∷◌, ◌++◌, ◌&&◌, not, if◌then◌else◌,
  ◌==◌,
}
use explorer_kv.Prelude.Int.{ℤ, beq_ℤ}
use explorer_kv.Prelude.Result.{Result, ok, exception, ◌>>=◌, ◌>>◌, guard}
use explorer_kv.OrdMap.{Map, find, has, set, erase}
use explorer_kv.OrdMap.Order.{nat_ord, int_ord}
use explorer_kv.Parser.Kvdb.{Name}

abbrev pub Table : Type 0
Table = Map Name (Map ℤ (Unit {0}))

abbrev pub Row : Type 0
Row = ℤ × Name

-- addressTable_, appIds_ and the rows of app_subcribe
pub record Notify : Type 0 where
  pub address_table : Table
  pub app_ids : Map ℤ (Unit {0})
  pub app_subcribe : List Row

-- `addressTable_[a]`
unfoldable pub apps_of : Name → Table → Map ℤ (Unit {0})
apps_of a table = elim (find a table) [ none ↦ [] | some apps ↦ apps ]

-- an entry for `a` in which there is `app`
unfoldable pub is_subscribed : ℤ → Name → Table → Bool
unfolding apps_of
is_subscribed app a table = has app (apps_of a table)

-- the rows of an application and an address, and the table without them
unfoldable pub count_rows : ℤ → Name → List Row → ℕ
count_rows app a [] = 0
count_rows app a ((b, x) ∷ rows) =
    let rest = count_rows app a rows in if beq_ℤ b app && x == a then suc rest else rest

unfoldable pub delete_rows : ℤ → Name → List Row → List Row
delete_rows app a [] = []
delete_rows app a ((b, x) ∷ rows) =
    let rest = delete_rows app a rows in if beq_ℤ b app && x == a then rest else (b, x) ∷ rest

-- CBitcoinAddress: the address that a text spells, when it is valid
abbrev pub Reader : Type 0
Reader = Name → Option Name

-- the unique key of app_subcribe
unfoldable pub insert_row : Bool → ℤ → Name → List Row → Result (List Row)
unfolding count_rows
insert_row false app a rows = ok rows
insert_row true app a rows = do
  guard (count_rows app a rows == 0) exception
  ok (rows ++ (app, a) ∷ [])

-- Notify::insertAddress, without the table of the application's events
unfoldable pub insert_address : Reader → ℤ → Name → Bool → Notify → Result (Bool × Notify)
insert_address read app address sync2mysql n = elim (read address) [
  | none ↦ ok (false, n)
  | some a ↦ if is_subscribed app a n.address_table then ok (false, n) else (do
    rows ← insert_row sync2mysql app a n.app_subcribe
    ok (
      true,
      record {
        address_table = set a (set app tt (apps_of a n.address_table)) n.address_table;
        app_ids = set app tt n.app_ids;
        app_subcribe = rows;
      },
    ))
]

-- Notify::removeAddress: the entry in memory is that of the text itself
unfoldable pub remove_address : Reader → ℤ → Name → Notify → Result (Bool × Notify)
remove_address read app address n = elim (read address) [
  | none ↦ ok (false, n)
  | some a ↦ if not (is_subscribed app a n.address_table) then ok (false, n) else (do
    guard (count_rows app a n.app_subcribe == 1) exception
    ok (
      true,
      record {
        address_table = set address (erase app (apps_of address n.address_table)) n.address_table;
        app_ids = n.app_ids;
        app_subcribe = delete_rows app a n.app_subcribe;
      },
    ))
]

-- what cb_address asks for, for an application and a text
pub data Request : Type 0 where
  subscribe unsubscribe : ℤ → Name → Request

unfoldable pub serve : Reader → Request → Notify → Result (Bool × Notify)
serve read (subscribe app address) n = insert_address read app address true n
serve read (unsubscribe app address) n = remove_address read app address n
