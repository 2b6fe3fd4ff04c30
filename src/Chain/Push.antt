-- ===== src/Chain/Push.antt =====
-- Chain::push (jiexi/src/Log1Producer.cc): the step forward, and valid chains.
use explorer_kv.Prelude.{
  ℕ, zero, suc, ◌<◌, ◌≤◌, true, false, some, [], ◌∷◌, ◌++◌, ◌≡◌, refl, ap, ◌∙◌, ◌⊎◌, inl, inr,
  arith, ltb, length, Bool-cases, List-cases, subst, ==_iff,
}
use explorer_kv.Prelude.Int.{ℤ, succ, beq_ℤ_iff, ltb_ℤ, ltb_ℤ-succ, ltb_ℤ_trans}
use explorer_kv.Prelude.Result.{ok}
use explorer_kv.Transaction.{Hash}
use explorer_kv.OrdMap.{Map, set, last?, erase_last, erase_first}
use explorer_kv.OrdMap.Order.{int_ord}
use explorer_kv.OrdMap.Last.{Below, set-append, last?-append}
use explorer_kv.BlockTimestamp.{trim}
use explorer_kv.BlockTimestamp.Window.{length-trim}
use explorer_kv.Chain.{Chain, size, get_cur_height, get_cur_hash, push}

-- Each height is one above the height before it.
abbrev pub IsConsecutive : Map ℤ Hash → Type 0
IsConsecutive [] = Unit
IsConsecutive (d ∷ []) = Unit
IsConsecutive (d ∷ e ∷ m) = (e.0 ≡ succ d.0) × IsConsecutive (e ∷ m)

-- A chain in use: some block, consecutive heights, at most `limit` blocks.
pub record IsValid (c : Chain) : Type 0 where
  pub nonempty : 0 < size c
  pub consecutive : IsConsecutive c.blocks
  pub short : size c ≤ c.limit

-- the last height and hash of a map that has a first entry
last_of : ℤ × Hash → Map ℤ Hash → ℤ × Hash
last_of d [] = d
last_of d (e ∷ m) = last_of e m

last?-last_of : (d : ℤ × Hash) (m : Map ℤ Hash) → last? (d ∷ m) ≡ some (last_of d m)
unfolding last? last_of
last?-last_of d [] = refl
last?-last_of d (e ∷ m) = last?-last_of e m

-- Every height is at most the last one, so the next height is above all.
first_lt :
    (d : ℤ × Hash) (m : Map ℤ Hash) (k : ℤ)
    → IsConsecutive (d ∷ m)
    → ltb_ℤ (last_of d m).0 k ≡ true
    → Below k (d ∷ m)
unfolding last_of
first_lt d [] k c h = (h, tt)
first_lt d (e ∷ m) k c h =
    let rest = first_lt e m k c.1 h in
    let step : ltb_ℤ d.0 e.0 ≡ true = rw (c.0) (ltb_ℤ-succ d.0) in
    (ltb_ℤ_trans d.0 e.0 k step rest.0, rest)

IsConsecutive-append :
    (d : ℤ × Hash) (m : Map ℤ Hash) (k : ℤ) (hash : Hash)
    → IsConsecutive (d ∷ m)
    → k ≡ succ (last_of d m).0
    → IsConsecutive (d ∷ m ++ (k, hash) ∷ [])
unfolding last_of
IsConsecutive-append d [] k hash c h = (h, tt)
IsConsecutive-append d (e ∷ m) k hash c h = (c.0, IsConsecutive-append e m k hash c.1 h)

IsConsecutive-tail : (d : ℤ × Hash) (m : Map ℤ Hash) → IsConsecutive (d ∷ m) → IsConsecutive m
IsConsecutive-tail d [] c = tt
IsConsecutive-tail d (e ∷ m) c = c.1

-- Dropping first entries down to a limit keeps the heights consecutive and the last block.
pub record Trimmed (limit : ℕ) (m t : Map ℤ Hash) : Type 0 where
  pub consecutive : IsConsecutive t
  pub nonempty : 0 < length t
  pub same_last : last? t ≡ last? m

trim-Trimmed :
    (rounds limit : ℕ) (d : ℤ × Hash) (m : Map ℤ Hash)
    → 0 < limit
    → IsConsecutive (d ∷ m)
    → Trimmed limit (d ∷ m) (trim rounds limit (d ∷ m))
unfolding trim erase_first last_of last?
trim-Trimmed zero limit d m h c = record {
  consecutive = c;
  nonempty = omega arith;
  same_last = refl;
}
trim-Trimmed (suc rounds) limit d [] h c =
    let small : ltb limit 1 ≡ false = ground arith in
    rw small (record { consecutive = c; nonempty = omega arith; same_last = refl })
trim-Trimmed (suc rounds) limit d (e ∷ m) h c =
    elim (Bool-cases (ltb limit (suc (suc (length m))))) [
      | inl more ↦
          let t = trim-Trimmed rounds limit e m h c.1 in
          rw more
            (record { consecutive = t.consecutive; nonempty = t.nonempty; same_last = t.same_last })
      | inr done ↦ rw done (record { consecutive = c; nonempty = omega arith; same_last = refl })
    ]

pub erase_last-IsConsecutive : (m : Map ℤ Hash) → IsConsecutive m → IsConsecutive (erase_last m)
unfolding erase_last
erase_last-IsConsecutive [] c = tt
erase_last-IsConsecutive (d ∷ []) c = tt
erase_last-IsConsecutive (d ∷ e ∷ []) c = tt
erase_last-IsConsecutive (d ∷ e ∷ f ∷ m) c = (c.0, erase_last-IsConsecutive (e ∷ f ∷ m) c.1)

pub length-erase_last : (m : Map ℤ Hash) → suc (length (erase_last m)) ≡ length m ⊎ (m ≡ [])
unfolding erase_last
length-erase_last [] = inr refl
length-erase_last (d ∷ []) = inl refl
length-erase_last (d ∷ e ∷ m) = elim (length-erase_last (e ∷ m)) [
  | inl h ↦ inl (omega arith)
  | inr h ↦ cc
]

-- the blocks after a step forward, before the limit is applied
forward_blocks :
    (d : ℤ × Hash) (m : Map ℤ Hash) (k : ℤ) (hash : Hash)
    → IsConsecutive (d ∷ m)
    → k ≡ succ (last_of d m).0
    → set k hash (d ∷ m) ≡ d ∷ m ++ (k, hash) ∷ []
forward_blocks d m k hash c h =
    set-append k hash (d ∷ m) (first_lt d m k c (rw h (ltb_ℤ-succ (last_of d m).0)))

-- A valid chain takes a block one above its height whose previous hash is its current hash: the
-- block becomes the current one, and the chain stays valid.
pub push_forward :
    (c : Chain) (height : ℤ) (hash prev_hash : Hash)
    → IsValid c
    → height ≡ succ (get_cur_height c)
    → prev_hash ≡ get_cur_hash c
    → (c' : Chain) × (push c height hash prev_hash ≡ ok c')
      × IsValid c'
      × (get_cur_height c' ≡ height)
      × (get_cur_hash c' ≡ hash)
unfolding push get_cur_height get_cur_hash
push_forward c height hash prev_hash v eh ep = elim (List-cases c.blocks) [
  | inl gone ↦ absurd (omega (arith, v.nonempty, ap length gone))
  | inr (d, m, e) ↦
      let at : height ≡ succ (last_of d m).0 = eh ∙ rw (e, last?-last_of d m) refl in
      let run : IsConsecutive (d ∷ m) = subst IsConsecutive e v.consecutive in
      let grown = d ∷ m ++ (height, hash) ∷ [] in
      let blocks : set height hash c.blocks ≡ grown =
        rw e (forward_blocks d m height hash run at) in
      let t =
        trim-Trimmed (length grown) c.limit d (m ++ (height, hash) ∷ [])
          (omega (arith, v.short, v.nonempty)) (IsConsecutive-append d m height hash run at) in
      let step = (beq_ℤ_iff height (succ (get_cur_height c))).1 eh in
      let same = (==_iff prev_hash (get_cur_hash c)).1 ep in
      let last = t.same_last ∙ last?-append (d ∷ m) (height, hash) in
      (
        record c { blocks = trim (length grown) c.limit grown },
        rw (step, push) (rw same (rw blocks)),
        record {
          nonempty = t.nonempty;
          consecutive = t.consecutive;
          short = length-trim (length grown) c.limit grown (omega arith);
        },
        rw last,
        rw last,
      )
]
