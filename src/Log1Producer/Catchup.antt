-- ===== src/Log1Producer/Catchup.antt =====
-- Log1Producer::syncBitcoind: where its two loops end.
use explorer_kv.Prelude.{
  ℕ, zero, suc, ◌<◌, false, not, ◌≡◌, ◌≢◌, refl, sym, ap, ◌∙◌, ◌⊎◌, inl, inr, arith, ◌==◌, ==_iff,
  Bool-cases, subst,
}
use explorer_kv.Prelude.Int.{ℤ, negsuc, succ, beq_ℤ, beq_ℤ_iff, ltb_ℤ}
use explorer_kv.Prelude.Result.{
  ok, err, exception, assertion, out_of_fuel, guard, >>=-eq-ok, >>=-eq-err, ok-injective,
}
use explorer_kv.Transaction.{Hash}
use explorer_kv.Chain.{Chain, size, get_cur_height, get_cur_hash, push, pop}
use explorer_kv.OrdMap.{erase_last}
use explorer_kv.Chain.Push.{length-erase_last}
use explorer_kv.Log1.{Codec, block_line}
use explorer_kv.Log1Producer.{Log1Producer, Bitcoind, sync_back, sync_forward}
use explorer_kv.Log1Producer.Restart.{Kept, log_lines-write_log1, write_block-Kept}
use explorer_kv.Log1.RoundTrip.{IsCodec}

-- The current block is bitcoind's block of its height, or the chain has not begun.
abbrev pub Agrees : Bitcoind → Chain → Type 0
Agrees b chain =
    (get_cur_height chain ≡ negsuc 0)
    ⊎ (b.block_hash (get_cur_height chain) ≡ ok (get_cur_hash chain))

size-pop : (chain : Chain) → (size (pop chain) ≡ 0) ⊎ (suc (size (pop chain)) ≡ size chain)
unfolding pop
size-pop chain = elim (length-erase_last chain.blocks) [
  | inl less ↦ inr less
  | inr gone ↦ inl (rw gone (unfold erase_last in refl))
]

size-pop-lt : (chain : Chain) → (size (pop chain) == 0) ≡ false → size (pop chain) < size chain
size-pop-lt chain left = elim (size-pop chain) [
  | inl gone ↦ absurd (ground (arith, left))
  | inr less ↦ omega arith
]

module _ (c : Codec) (max : ℕ) (b : Bitcoind) where
  -- When going back succeeds, the chain is at its beginning or its current block is the one
  -- that bitcoind names for its height.
  pub sync_back-Agrees :
      (fuel : ℕ) (p p' : Log1Producer) → sync_back c max b fuel p ≡ ok p' → Agrees b p'.chain
  unfolding sync_back
  sync_back-Agrees zero p p' h = cc
  sync_back-Agrees (suc fuel) p p' h =
      elim (Bool-cases (beq_ℤ (get_cur_height p.chain) (negsuc 0))) [
        | inl none_yet ↦
            subst (λ (q : Log1Producer). Agrees b q.chain)
              (ok-injective (rw (none_yet, sync_back) at h))
              (inl ((beq_ℤ_iff (get_cur_height p.chain) (negsuc 0)).0 none_yet))
        | inr begun ↦
            let (hash, asks, rest) =
              >>=-eq-ok (b.block_hash (get_cur_height p.chain)) _ (rw (begun, sync_back) at h) in
            elim (Bool-cases (get_cur_hash p.chain == hash)) [
              | inl same ↦
                  subst (λ (q : Log1Producer). Agrees b q.chain) (ok-injective (rw same at rest))
                    (inr (asks ∙ ap ok (sym ((==_iff (get_cur_hash p.chain) hash).0 same))))
              | inr other ↦
                  let (_, left, more) =
                    >>=-eq-ok (guard (not (size (pop p.chain) == 0)) exception) _
                      (rw other at rest) in
                  let (blk, _, again) =
                    >>=-eq-ok (b.block_of (get_cur_hash (pop p.chain))) _ more in
                  sync_back-Agrees fuel _ p' again
            ]
      ]

  -- With fuel above the number of blocks of the chain, going back does not run out of fuel, if
  -- no answer of bitcoind does.
  pub sync_back_fuel :
      (fuel : ℕ) (p : Log1Producer)
      → size p.chain < fuel
      → ((height : ℤ) → b.block_hash height ≢ err out_of_fuel)
      → ((hash : Hash) → b.block_of hash ≢ err out_of_fuel)
      → sync_back c max b fuel p ≢ err out_of_fuel
  unfolding sync_back
  sync_back_fuel zero p less hashes blocks h = absurd (omega arith)
  sync_back_fuel (suc fuel) p less hashes blocks h =
      elim (Bool-cases (beq_ℤ (get_cur_height p.chain) (negsuc 0))) [
        | inl none_yet ↦ absurd (let bad = rw (none_yet, sync_back) at h in cc)
        | inr begun ↦
            elim (>>=-eq-err (b.block_hash (get_cur_height p.chain)) _
              (rw (begun, sync_back) at h)) [
                | inl stuck ↦ hashes (get_cur_height p.chain) stuck
                | inr (hash, asks, rest) ↦ elim (Bool-cases (get_cur_hash p.chain == hash)) [
                  | inl same ↦ absurd (let bad = rw same at rest in cc)
                  | inr other ↦ elim (Bool-cases (size (pop p.chain) == 0)) [
                    | inl gone ↦ absurd (let bad = rw gone at (rw other at rest) in cc)
                    | inr left ↦
                        elim (>>=-eq-err (b.block_of (get_cur_hash (pop p.chain))) _
                          (rw left at (rw other at rest))) [
                            | inl stuck ↦ blocks (get_cur_hash (pop p.chain)) stuck
                            | inr (blk, _, again) ↦
                                let written =
                                  log_lines-write_log1 max
                                    (block_line c (get_cur_height (pop p.chain)) blk)
                                    (record p { chain = pop p.chain }) in
                                sync_back_fuel fuel _
                                  (omega (arith, ap size written.1, size-pop-lt p.chain left))
                                  hashes blocks again
                          ]
                  ]
                ]
              ]
      ]

module _ (c : Codec) (l : IsCodec c) (max : ℕ) (b : Bitcoind) where
  -- If the log1 files build up a valid chain that is the producer's, following bitcoind, when
  -- it succeeds, keeps this so and ends at the target height or above it, for a codec that
  -- keeps its promises.
  pub sync_forward-Kept :
      (fuel : ℕ) (target : ℤ) (start : Chain) (p p' : Log1Producer)
      → Kept c start p
      → sync_forward c max b fuel target p ≡ ok p'
      → Kept c start p' × (ltb_ℤ (get_cur_height p'.chain) target ≡ false)
  unfolding sync_forward
  sync_forward-Kept zero target start p p' k h =
      elim (Bool-cases (ltb_ℤ (get_cur_height p.chain) target)) [
        | inl below ↦ absurd (let bad = rw (below, sync_forward) at h in cc)
        | inr there ↦
            subst
              (λ (q : Log1Producer).
                Kept c start q × (ltb_ℤ (get_cur_height q.chain) target ≡ false))
              (ok-injective (rw (there, sync_forward) at h)) (k, there)
      ]
  sync_forward-Kept (suc fuel) target start p p' k h =
      elim (Bool-cases (ltb_ℤ (get_cur_height p.chain) target)) [
        | inr there ↦
            subst
              (λ (q : Log1Producer).
                Kept c start q × (ltb_ℤ (get_cur_height q.chain) target ≡ false))
              (ok-injective (rw (there, sync_forward) at h)) (k, there)
        | inl below ↦
            let (hash, _, h1) =
              >>=-eq-ok (b.block_hash (succ (get_cur_height p.chain))) _
                (rw (below, sync_forward) at h) in
            let (blk, _, h2) = >>=-eq-ok (b.block_of hash) _ h1 in
            let (_, _, h3) = >>=-eq-ok (guard (blk.hash == hash) assertion) _ h2 in
            let (_, _, h4) =
              >>=-eq-ok (guard (get_cur_hash p.chain == blk.hash_prev_block) assertion) _ h3 in
            let (chain, pushes, h5) =
              >>=-eq-ok (push p.chain (succ (get_cur_height p.chain)) blk.hash blk.hash_prev_block)
                _ h4 in
            sync_forward-Kept fuel target start _ p'
              (write_block-Kept c l max start p (succ (get_cur_height p.chain)) blk chain k pushes)
              h5
      ]
