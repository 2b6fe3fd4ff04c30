-- ===== src/Chain/Pop.antt =====
-- Chain::pop and the backward step of Chain::push: the two ways in which a block leaves.
use explorer_kv.Prelude.{
  ℕ, zero, suc, ◌<◌, ◌≤◌, true, false, some, [], ◌∷◌, ◌≡◌, refl, sym, ap, ◌∙◌, ◌⊎◌, inl, inr, arith,
  ltb, ==_iff, length, subst,
}
use explorer_kv.Prelude.Int.{ℤ, pos, negsuc, succ, beq_ℤ, beq_ℤ_iff}
use explorer_kv.Prelude.Result.{ok, err, exception, ok-injective}
use explorer_kv.Transaction.{Hash}
use explorer_kv.OrdMap.{Map, last?, erase_last}
use explorer_kv.OrdMap.Order.{int_ord}
use explorer_kv.BlockTimestamp.Window.{trim_small}
use explorer_kv.Chain.{Chain, size, get_cur_height, get_cur_hash, push, third_hash, pop, height_of}
use explorer_kv.Chain.Push.{
  IsConsecutive, IsValid, length-erase_last, erase_last-IsConsecutive, push_forward,
}

ne_two_up : (a : ℤ) → beq_ℤ a (succ (succ a)) ≡ false
ne_two_up (pos n) = ground arith
ne_two_up (negsuc zero) = ground arith
ne_two_up (negsuc (suc zero)) = ground arith
ne_two_up (negsuc (suc (suc n))) = ground arith

ne_up : (h k : ℤ) → succ h ≡ k → beq_ℤ h (succ k) ≡ false
ne_up h k e = subst (λ j. beq_ℤ h (succ j) ≡ false) e (ne_two_up h)

shorter : (m : Map ℤ Hash) (limit : ℕ) → length m ≤ limit → length (erase_last m) ≤ limit
shorter m limit h = elim (length-erase_last m) [
  | inl less ↦ omega arith
  | inr gone ↦ rw gone (unfold erase_last in omega arith)
]

-- A block one below the current height, whose previous hash is that of the third block from the
-- end, takes the current block off, if there are more than three. Its own hash plays no part.
pub push_backward :
    (c : Chain) (height : ℤ) (hash prev_hash : Hash)
    → size c ≤ c.limit
    → succ height ≡ get_cur_height c
    → 3 < size c
    → third_hash c.blocks ≡ some prev_hash
    → push c height hash prev_hash ≡ ok (pop c)
unfolding push pop get_cur_height
push_backward c height hash prev_hash fits below many third =
    let up : beq_ℤ height (succ (get_cur_height c)) ≡ false =
      ne_up height (get_cur_height c) below in
    let down = (beq_ℤ_iff (succ height) (get_cur_height c)).1 below in
    let more : ltb 3 (size c) ≡ true = ground arith in
    let same = (==_iff prev_hash prev_hash).1 refl in
    rw (up, push)
      (rw (down, more)
        (rw third (
          rw same (
            rw (
              trim_small (length (erase_last c.blocks)) c.limit (erase_last c.blocks)
                (shorter c.blocks c.limit fits))))))

push_refused :
    (c : Chain) (height : ℤ) (hash prev_hash : Hash)
    → succ height ≡ get_cur_height c
    → size c ≤ 3
    → push c height hash prev_hash ≡ err exception
unfolding push get_cur_height
push_refused c height hash prev_hash below few =
    let up : beq_ℤ height (succ (get_cur_height c)) ≡ false =
      ne_up height (get_cur_height c) below in
    let down = (beq_ℤ_iff (succ height) (get_cur_height c)).1 below in
    let short : ltb 3 (size c) ≡ false = ground arith in rw (up, push) (rw (down, short))

height_below :
    (m : Map ℤ Hash)
    → IsConsecutive m
    → 1 < length m
    → succ (height_of (last? (erase_last m))) ≡ height_of (last? m)
unfolding last? erase_last
height_below [] r l = absurd (omega arith)
height_below (d ∷ []) r l = absurd (omega arith)
height_below (d ∷ e ∷ []) r l = sym r.0
height_below (d ∷ e ∷ f ∷ m) r l = height_below (e ∷ f ∷ m) r.1 (omega arith)

-- In a chain of two blocks or more the height falls by one.
pub get_cur_height-pop :
    (c : Chain)
    → IsConsecutive c.blocks
    → 1 < size c
    → succ (get_cur_height (pop c)) ≡ get_cur_height c
unfolding get_cur_height pop
get_cur_height-pop c run many = height_below c.blocks run many

-- Popping a block of a valid chain with another one leaves a valid chain.
pub pop-IsValid : (c : Chain) → IsValid c → 1 < size c → IsValid (pop c)
unfolding pop
pop-IsValid c v many = record {
  nonempty = elim (length-erase_last c.blocks) [
    | inl less ↦ omega arith
    | inr gone ↦ absurd (omega (arith, ap length gone))
  ];
  consecutive = erase_last-IsConsecutive c.blocks v.consecutive;
  short = shorter c.blocks c.limit v.short;
}

-- On a valid chain of more than three blocks, pushing the height below the current one with the
-- hash of the third block from the end as its previous hash does what pop does.
pub push-pop :
    (c : Chain) (hash prev_hash : Hash)
    → IsValid c
    → 3 < size c
    → third_hash c.blocks ≡ some prev_hash
    → push c (get_cur_height (pop c)) hash prev_hash ≡ ok (pop c)
push-pop c hash prev_hash v many third =
    push_backward c (get_cur_height (pop c)) hash prev_hash v.short
      (get_cur_height-pop c v.consecutive (omega arith)) many third

-- On a valid chain of two or three blocks pop leaves a valid chain, and pushing the height that
-- it leaves throws, whatever the hashes are.
pub push-pop_short :
    (c : Chain) (hash prev_hash : Hash)
    → IsValid c
    → 1 < size c
    → size c ≤ 3
    → IsValid (pop c) × (push c (get_cur_height (pop c)) hash prev_hash ≡ err exception)
push-pop_short c hash prev_hash v many few = (pop-IsValid c v many, refused)
  where
    below : succ (get_cur_height (pop c)) ≡ get_cur_height c
    below = get_cur_height-pop c v.consecutive many

    refused : push c (get_cur_height (pop c)) hash prev_hash ≡ err exception
    refused = push_refused c (get_cur_height (pop c)) hash prev_hash below few

-- A push succeeds only for a block one above the current height whose previous hash is the
-- current hash, or for one below it whose previous hash is that of the third block from the end
-- of more than three.
push-eq-ok :
    (c c' : Chain) (height : ℤ) (hash prev_hash : Hash)
    → push c height hash prev_hash ≡ ok c'
    → (height ≡ succ (get_cur_height c)) × (prev_hash ≡ get_cur_hash c)
      ⊎ (succ height ≡ get_cur_height c) × (3 < size c) × (third_hash c.blocks ≡ some prev_hash)
unfolding push get_cur_height get_cur_hash
push-eq-ok c c' height hash prev_hash h =
    ground (
      arith,
      beq_ℤ_iff height (succ (get_cur_height c)),
      beq_ℤ_iff (succ height) (get_cur_height c),
    )

-- A push that succeeds on a valid chain leaves a valid chain.
pub push-IsValid :
    (c c' : Chain) (height : ℤ) (hash prev_hash : Hash)
    → IsValid c
    → push c height hash prev_hash ≡ ok c'
    → IsValid c'
push-IsValid c c' height hash prev_hash v h = elim (push-eq-ok c c' height hash prev_hash h) [
  | inl (up, same) ↦
      let (d, runs, valid, _, _) = push_forward c height hash prev_hash v up same in
      subst IsValid (ok-injective (sym runs ∙ h)) valid
  | inr (down, many, third) ↦
      let runs = push_backward c height hash prev_hash v.short down many third in
      subst IsValid (ok-injective (sym runs ∙ h)) (pop-IsValid c v (omega arith))
]
