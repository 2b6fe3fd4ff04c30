-- ===== src/MemTxRepository/Ends.antt =====
-- MemTxRepository::getSpentEndTx (jiexi/src/Log2Producer.cc): the recursion along spends.
use explorer_kv.Prelude.{
  ℕ, zero, suc, ◌+◌, ◌<◌, ◌≤◌, true, none, some, [], ◌∷◌, ◌≡◌, refl, ◌⊎◌, inl, inr, if◌then◌else◌,
  arith, ltb, length, Option-cases, subst, sym, ap, ◌∙◌,
}
use explorer_kv.Prelude.Result.{ok}
use explorer_kv.Transaction.{Hash, Tx, TxOutputKey, key_ord, spends}
use native.Mathlib.Decide.{dec_lt}
use explorer_kv.OrdMap.{Map, find}
use explorer_kv.OrdMap.Order.{nat_ord}
use explorer_kv.MemTxRepository.{MemTxRepository, depth, spender, get_spent_end_tx, tx_at}
use explorer_kv.MemTxRepository.Invariant.{Inv}

abbrev pub output : Hash → ℕ → TxOutputKey
output h i = record { hash = h; position = i }

-- `h` is `start`, or spends it through transactions of the repository.
pub data Descends (m : MemTxRepository) (start : Hash) : Hash → Type 0 where
  here : Descends m start start
  next :
      {h child : Hash} (tx : Tx) (position : ℕ)
      → Descends m start h
      → find child m.txs ≡ some tx
      → spends (output h position) tx.vin ≡ true
      → Descends m start child

pub Descends-child :
    {m : MemTxRepository} {start child h : Hash} (tx : Tx) (position : ℕ)
    → find child m.txs ≡ some tx
    → spends (output start position) tx.vin ≡ true
    → Descends m child h
    → Descends m start h
Descends-child tx i at s here = next tx i here at s
Descends-child tx i at s (next t j d at' s') = next t j (Descends-child tx i at s d) at' s'

-- Fewer transactions, fewer descendants.
pub Descends-mono :
    {m m' : MemTxRepository} {start h : Hash}
    → ((j : Hash) (t : Tx) → find j m'.txs ≡ some t → find j m.txs ≡ some t)
    → Descends m' start h
    → Descends m start h
Descends-mono sub here = here
Descends-mono sub (next {child = c} t i d at s) = next t i (Descends-mono sub d) (sub c t at) s

-- No output is spent by a transaction of the repository.
abbrev pub IsUnspent : MemTxRepository → Tx → Type 0
IsUnspent m tx = (i : ℕ) → i < tx.vout → find (output tx.hash i) m.spent_outputs ≡ none

spender-eq-none :
    (spent : Map TxOutputKey Hash) (h : Hash) (i n : ℕ)
    → spender spent h i n ≡ none
    → (j : ℕ) → i ≤ j
    → j < i + n
    → find (output h j) spent ≡ none
unfolding spender
spender-eq-none spent h i zero e j lo hi = absurd (omega arith)
spender-eq-none spent h i (suc n) e j lo hi = elim (Option-cases (find (output h i) spent)) [
  | inl free ↦ elim (dec_lt i j) [
    | yes later ↦
        spender-eq-none spent h (i + 1) n (rw (free, spender) at e) j (omega arith) (omega arith)
    | no first ↦ let at : j ≡ i = omega arith in rw at free
  ]
  | inr (c, taken) ↦ absurd (ground arith)
]

spender-eq-some :
    (spent : Map TxOutputKey Hash) (h : Hash) (i n : ℕ) {child : Hash}
    → spender spent h i n ≡ some child
    → (j : ℕ) × (find (output h j) spent ≡ some child)
unfolding spender
spender-eq-some spent h i zero e = cc
spender-eq-some spent h i (suc n) e = elim (Option-cases (find (output h i) spent)) [
  | inl free ↦ spender-eq-some spent h (i + 1) n (rw (free, spender) at e)
  | inr (c, taken) ↦ (i, ground arith)
]

-- How many entries are ranked above `r`?
above : (Hash → ℕ) → ℕ → Map Hash Tx → ℕ
above rank r [] = 0
above rank r ((h, tx) ∷ txs) = let n = above rank r txs in if ltb r (rank h) then suc n else n

above-le-length : (rank : Hash → ℕ) (r : ℕ) (txs : Map Hash Tx) → above rank r txs ≤ length txs
unfolding above
above-le-length rank r [] = omega arith
above-le-length rank r (e ∷ txs) = ground (arith, above-le-length rank r txs)

above_mono :
    (rank : Hash → ℕ) (r s : ℕ) (txs : Map Hash Tx) → r ≤ s → above rank s txs ≤ above rank r txs
unfolding above
above_mono rank r s [] h = omega arith
above_mono rank r s (e ∷ txs) h = ground (arith, above_mono rank r s txs)

above-lt :
    (rank : Hash → ℕ) (r : ℕ) (h : Hash) (tx : Tx) (txs : Map Hash Tx)
    → find h txs ≡ some tx
    → r < rank h
    → above rank (rank h) txs < above rank r txs
unfolding above find
above-lt rank r h tx [] f l = cc
above-lt rank r h tx ((j, t) ∷ txs) f l =
    ground (arith, above-lt rank r h tx txs, above_mono rank r (rank h) txs)

-- what `getSpentEndTx(tx)` returns
pub record EndOf (m : MemTxRepository) (tx : Tx) (h : Hash) : Type 0 where
  pub descends : Descends m tx.hash h
  pub last : Tx
  pub last_hash : last.hash ≡ h
  pub last_at : (last ≡ tx) ⊎ (find h m.txs ≡ some last)
  pub unspent : IsUnspent m last

module _ (rank : Hash → ℕ) (m : MemTxRepository) (inv : Inv rank m) where
  end_here : (tx : Tx) → spender m.spent_outputs tx.hash 0 tx.vout ≡ none → EndOf m tx tx.hash
  end_here tx free = record {
    descends = here;
    last = tx;
    last_hash = refl;
    last_at = inl refl;
    unspent = λ i lt.
        spender-eq-none m.spent_outputs tx.hash 0 tx.vout free i (omega arith) (omega arith);
  }

  end_below :
      (tx t : Tx) (child h : Hash) (i : ℕ)
      → find child m.txs ≡ some t
      → spends (output tx.hash i) t.vin ≡ true
      → EndOf m t h
      → EndOf m tx h
  end_below tx t child h i at s e = record {
    descends =
        Descends-child t i at s (subst (λ c. Descends m c h) (inv.keyed child t at) e.descends);
    last = e.last;
    last_hash = e.last_hash;
    last_at = elim e.last_at [
      | inl same ↦
          let moved : h ≡ child =
            sym e.last_hash ∙ ap (λ (x : Tx). x.hash) same ∙ inv.keyed child t at in
          inr (
            subst (λ x. find h m.txs ≡ some x) (sym same)
              (subst (λ k. find k m.txs ≡ some t) (sym moved) at))
      | inr there ↦ inr there
    ];
    unspent = e.unspent;
  }

  get_spent_end_tx_fuel :
      (fuel : ℕ) (tx : Tx)
      → above rank (rank tx.hash) m.txs < fuel
      → (h : Hash) × (get_spent_end_tx fuel m tx ≡ ok h) × EndOf m tx h
  unfolding get_spent_end_tx
  get_spent_end_tx_fuel zero tx less = absurd (omega arith)
  get_spent_end_tx_fuel (suc fuel) tx less =
      elim (Option-cases (spender m.spent_outputs tx.hash 0 tx.vout)) [
        | inl free ↦ (tx.hash, rw (free, get_spent_end_tx), end_here tx free)
        | inr (child, taken) ↦
            let (i, edge) = spender-eq-some m.spent_outputs tx.hash 0 tx.vout taken in
            let (t, at, s) = inv.sound (output tx.hash i) child edge in
            let keyed = inv.keyed child t at in
            let later : rank tx.hash < rank t.hash = (inv.spendable child t at).ranked _ s in
            let fewer : above rank (rank t.hash) m.txs < above rank (rank tx.hash) m.txs =
              rw keyed (above-lt rank (rank tx.hash) child t m.txs at (rw keyed at later)) in
            let (h, runs, e) = get_spent_end_tx_fuel fuel t (omega arith) in
            (h, rw (taken, get_spent_end_tx) (rw (at, tx_at) runs), end_below tx t child h i at s e)
      ]

  -- In a well-formed pool the search for an end transaction returns within as many levels as
  -- the pool has transactions and one: it finds a descendant of the given transaction none of
  -- whose outputs is spent.
  pub get_spent_end_tx_ends :
      (tx : Tx) → (h : Hash) × (get_spent_end_tx (depth m) m tx ≡ ok h) × EndOf m tx h
  get_spent_end_tx_ends tx =
      get_spent_end_tx_fuel (depth m) tx (omega (arith, above-le-length rank (rank tx.hash) m.txs))
