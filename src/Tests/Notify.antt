-- ===== src/Tests/Notify.antt =====
-- Notifications written and read.
use explorer_kv.Prelude.{ℕ, zero, suc, true, none, some, List, [], ◌∷◌, ◌≡◌, refl}
use explorer_kv.Prelude.Int.{ℤ, pos, negsuc}
use explorer_kv.Prelude.Result.{ok}
use explorer_kv.OrdMap.{find}
use explorer_kv.Parser.Kvdb.{Name}
use explorer_kv.NotifyLog.{NotifyItem, Event, load, to_str, parse, is_tx_event}
use explorer_kv.NotifyLog.RoundTrip.{tx_event, parse-to_str}
use explorer_kv.NotifyLog.Subscriptions.{Notify, Reader, Request, is_subscribed, count_rows}
use explorer_kv.NotifyLog.Subscriptions.Mirror.{Mirrors, serve_all, wanted_all, serve_all-Mirrors}
use explorer_kv.Tests.Encoding.{notify_codec, notify_codec-IsNotifyCodec}

abbrev blank : NotifyItem
blank = record {
  timestamp = 0;
  type = negsuc 0;
  height = negsuc 0;
  amount = pos 0;
  hash = 0;
  address = [];
}

-- a transaction that left 500 less at the address "1A"
abbrev spent : Event
spent = Event.tx (pos 21) (49 ∷ 65 ∷ []) 77 (pos 4) (negsuc 499)

parse-to_str_example :
    parse notify_codec (to_str notify_codec (load (pos 1000) spent blank)) blank
    ≡ ok (true, load (pos 1000) spent blank)
parse-to_str_example =
    let known : is_tx_event (pos 21) ≡ true = unfold is_tx_event in refl in
    parse-to_str notify_codec notify_codec-IsNotifyCodec (pos 1000) spent blank blank
      (tx_event known refl)

-- an address is printed as its number, and 0 is none
abbrev reader : Reader
reader zero = none
reader (suc n) = some (suc n)

reader-IsPrinted : (k a : ℕ) → reader k ≡ some a → a ≡ k
reader-IsPrinted zero a e = cc
reader-IsPrinted (suc n) a e = cc

abbrev nobody : Notify
nobody = record { address_table = []; app_ids = []; app_subcribe = [] }

nobody-Mirrors : Mirrors nobody
unfolding is_subscribed count_rows find
nobody-Mirrors = record { one_row = λ app a. refl }

-- two applications, of which one leaves again
abbrev requests : List Request
requests =
    Request.subscribe (pos 1) 7
    ∷ Request.subscribe (pos 2) 7
    ∷ Request.subscribe (pos 1) 7
    ∷ Request.unsubscribe (pos 1) 7
    ∷ []

serve_all-Mirrors_example :
    (after : Notify) × (serve_all reader requests nobody ≡ ok after)
    × Mirrors after
    × ((j : ℤ) (b : Name)
        → is_subscribed j b after.address_table
          ≡ wanted_all reader requests j b (is_subscribed j b nobody.address_table))
serve_all-Mirrors_example =
    serve_all-Mirrors reader requests nobody nobody-Mirrors
      (tt, (tt, (tt, (reader-IsPrinted 7, tt))))
