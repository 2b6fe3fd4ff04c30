-- ===== src/TxLogs2/Lifecycle.antt =====
-- Legal logs join; a pool agrees with a ledger.
use explorer_kv.Prelude.{List, [], ◌∷◌, ◌++◌, ◌≡◌, refl}
use explorer_kv.Transaction.{Hash}
use explorer_kv.MemTxRepository.{MemTxRepository, is_exist}
use explorer_kv.TxLogs2.{Row, Ledger, after, replay, IsLegal, is_unconfirmed}

pub replay-append : (s : Ledger) (xs ys : List Row) → replay s (xs ++ ys) ≡ replay (replay s xs) ys
unfolding replay
replay-append s [] ys = refl
replay-append s (r ∷ xs) ys = replay-append (after s r.type r.tx_hash) xs ys

pub IsLegal-append :
    (s : Ledger) (xs ys : List Row) → IsLegal s xs → IsLegal (replay s xs) ys → IsLegal s (xs ++ ys)
unfolding replay
IsLegal-append s [] ys h k = k
IsLegal-append s (r ∷ xs) ys h k = (h.0, IsLegal-append (after s r.type r.tx_hash) xs ys h.1 k)

-- The memory pool holds exactly the transactions that the log left unconfirmed.
pub record Coheres (s : Ledger) (m : MemTxRepository) : Type 0 where
  pub at : (h : Hash) → is_unconfirmed (s h) ≡ is_exist m h
