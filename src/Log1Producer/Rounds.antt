-- ===== src/Log1Producer/Rounds.antt =====
-- Log1Producer::syncBitcoind: how many rounds the second loop takes.
use explorer_kv.Prelude.{
  ℕ, zero, suc, Bool, true, false, ◌≡◌, ◌≢◌, refl, sym, ap, ◌∙◌, inl, inr, arith, ◌==◌, ==_iff,
  Bool-cases, subst,
}
use explorer_kv.Prelude.Int.{ℤ, succ, ltb_ℤ}
use explorer_kv.Prelude.Result.{ok, err, assertion, out_of_fuel, guard, >>=-eq-err, ok-injective}
use explorer_kv.Transaction.{Hash}
use explorer_kv.Chain.{Chain, get_cur_height, get_cur_hash, push, forward, backward}
use explorer_kv.Chain.Push.{IsValid, push_forward}
use explorer_kv.Chain.Pop.{push-IsValid}
use explorer_kv.Log1.{Codec, block_line}
use explorer_kv.Log1Producer.{Log1Producer, Bitcoind, sync_forward}
use explorer_kv.Log1Producer.Restart.{log_lines-write_log1}

-- the height after `n` blocks more
unfoldable pub advance : ℕ → ℤ → ℤ
advance zero height = height
advance (suc n) height = advance n (succ height)

push_throws :
    (c : Chain) (height : ℤ) (hash prev_hash : Hash)
    → push c height hash prev_hash ≢ err out_of_fuel
unfolding push forward backward
push_throws c height hash prev_hash h = ground arith

guard_asserts : (b : Bool) → guard b assertion ≢ err out_of_fuel
guard_asserts true h = cc
guard_asserts false h = cc

guard_holds : (b : Bool) {done : Unit {0}} → guard b assertion ≡ ok done → b ≡ true
guard_holds true h = refl
guard_holds false h = cc

height_pushed :
    (c d : Chain) (hash prev_hash : Hash)
    → IsValid c
    → get_cur_hash c ≡ prev_hash
    → push c (succ (get_cur_height c)) hash prev_hash ≡ ok d
    → get_cur_height d ≡ succ (get_cur_height c)
height_pushed c d hash prev_hash v joined pushes =
    let (e, runs, _, height, _) =
      push_forward c (succ (get_cur_height c)) hash prev_hash v refl (sym joined) in
    subst (λ (x : Chain). get_cur_height x ≡ succ (get_cur_height c))
      (ok-injective (sym runs ∙ pushes)) height

module _ (c : Codec) (max : ℕ) (b : Bitcoind) where
  -- From a valid chain, with as many rounds as heights are missing up to the target, following
  -- bitcoind does not run out of rounds, if no answer of bitcoind does.
  pub sync_forward_fuel :
      (fuel : ℕ) (target : ℤ) (p : Log1Producer)
      → IsValid p.chain
      → ltb_ℤ (advance fuel (get_cur_height p.chain)) target ≡ false
      → ((height : ℤ) → b.block_hash height ≢ err out_of_fuel)
      → ((hash : Hash) → b.block_of hash ≢ err out_of_fuel)
      → sync_forward c max b fuel target p ≢ err out_of_fuel
  unfolding sync_forward advance
  sync_forward_fuel zero target p v enough hashes blocks h =
      absurd (let bad = rw (enough, sync_forward) at h in cc)
  sync_forward_fuel (suc fuel) target p v enough hashes blocks h =
      let up = succ (get_cur_height p.chain) in
      elim (Bool-cases (ltb_ℤ (get_cur_height p.chain) target)) [
        | inr there ↦ absurd (let bad = rw (there, sync_forward) at h in cc)
        | inl below ↦ elim (>>=-eq-err (b.block_hash up) _ (rw (below, sync_forward) at h)) [
          | inl stuck ↦ hashes up stuck
          | inr (hash, _, h1) ↦ elim (>>=-eq-err (b.block_of hash) _ h1) [
            | inl stuck ↦ blocks hash stuck
            | inr (blk, _, h2) ↦ elim (>>=-eq-err (guard (blk.hash == hash) assertion) _ h2) [
              | inl stuck ↦ guard_asserts (blk.hash == hash) stuck
              | inr (_, _, h3) ↦
                  elim (>>=-eq-err (guard (get_cur_hash p.chain == blk.hash_prev_block) assertion) _
                    h3) [
                      | inl stuck ↦
                          guard_asserts (get_cur_hash p.chain == blk.hash_prev_block) stuck
                      | inr (_, joined, h4) ↦
                          elim (>>=-eq-err (push p.chain up blk.hash blk.hash_prev_block) _ h4) [
                            | inl stuck ↦ push_throws p.chain up blk.hash blk.hash_prev_block stuck
                            | inr (chain, pushes, again) ↦
                                let same = (==_iff (get_cur_hash p.chain) blk.hash_prev_block).0 (
                                  guard_holds (get_cur_hash p.chain == blk.hash_prev_block)
                                    joined) in
                                let kept =
                                  (log_lines-write_log1 max (block_line c up blk)
                                    (record p { chain = chain })).1 in
                                let height =
                                  ap get_cur_height kept
                                  ∙ height_pushed p.chain chain blk.hash blk.hash_prev_block v same
                                      pushes in
                                sync_forward_fuel fuel target _
                                  (subst IsValid (sym kept) (
                                    push-IsValid p.chain chain up blk.hash blk.hash_prev_block v
                                      pushes))
                                  (ap (λ z. ltb_ℤ (advance fuel z) target) height ∙ enough) hashes
                                  blocks again
                          ]
                    ]
            ]
          ]
        ]
      ]
