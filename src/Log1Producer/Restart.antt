-- ===== src/Log1Producer/Restart.antt =====
-- Log1Producer (jiexi/src/Log1Producer.cc): the chain that is kept, and the one that `initLog1`
-- builds from the log1 files.
use explorer_kv.Prelude.{
  ℕ, false, List, [], ◌∷◌, ◌++◌, ◌≡◌, refl, sym, ap, ◌∙◌, ◌⊎◌, inl, inr, arith, ◌==◌, subst,
  append_assoc, append-nil, Bool-cases, ltb,
}
use explorer_kv.Prelude.Int.{ℤ}
use explorer_kv.Prelude.Result.{ok, >>=-eq-ok, ok-injective}
use explorer_kv.Transaction.{Tx, Block}
use explorer_kv.Chain.{Chain, size, push}
use explorer_kv.Chain.Push.{IsValid}
use explorer_kv.Chain.Pop.{push-IsValid}
use explorer_kv.Log1.{
  Text, Codec, ItemType, item_code, is_type, parse, get_tx, get_block, tx_line, block_line,
}
use explorer_kv.Log1.RoundTrip.{IsCodec, parse-tx_line, parse-block_line}
use explorer_kv.Log1Producer.{
  Log1Producer, write_log1, handle_line, handle_lines, bytes, load_line, load_lines, log_lines,
  concat,
}

load_lines-append :
    (c : Codec) (a d : Chain) (xs ys : List Text)
    → load_lines c a xs ≡ ok d
    → load_lines c a (xs ++ ys) ≡ load_lines c d ys
unfolding load_lines
load_lines-append c a d [] ys h = ap (λ b. load_lines c b ys) (ok-injective h)
load_lines-append c a d (x ∷ xs) ys h =
    let (b, first, rest) = >>=-eq-ok (load_line c a x) (λ e. load_lines c e xs) h in
    rw (first, load_lines) (load_lines-append c b d xs ys rest)

concat-append : (xs ys : List (List Text)) → concat (xs ++ ys) ≡ concat xs ++ concat ys
concat-append [] ys = refl
concat-append (x ∷ xs) ys = ap (λ t. x ++ t) (concat-append xs ys) ∙ sym (append_assoc x _ _)

-- Writing a line adds it at the end of the lines of all files, whether or not the file is
-- closed after it, and keeps the chain.
pub log_lines-write_log1 :
    (max : ℕ) (line : Text) (p : Log1Producer)
    → (log_lines (write_log1 max line p) ≡ log_lines p ++ line ∷ [])
      × ((write_log1 max line p).chain ≡ p.chain)
unfolding log_lines write_log1
log_lines-write_log1 max line p = elim (Bool-cases (ltb max (bytes (p.current ++ line ∷ [])))) [
  | inl full ↦
      rw (full, write_log1)
        (
          ap (λ t. t ++ []) (concat-append p.closed ((p.current ++ line ∷ []) ∷ []))
              ∙ append-nil _
              ∙ ap (λ t. concat p.closed ++ t) (append-nil (p.current ++ line ∷ []))
              ∙ sym (append_assoc (concat p.closed) p.current (line ∷ [])),
          refl,
        )
  | inr room ↦
      rw (room, write_log1) (sym (append_assoc (concat p.closed) p.current (line ∷ [])), refl)
]

-- The chain is valid, and the log1 files build it up from `start`.
pub record Kept (c : Codec) (start : Chain) (p : Log1Producer) : Type 0 where
  pub valid : IsValid p.chain
  pub replays : load_lines c start (log_lines p) ≡ ok p.chain

module _ (c : Codec) (l : IsCodec c) (max : ℕ) (start : Chain) where
  load-tx_line :
      (type : ItemType) (tx : Tx) (chain : Chain)
      → (type ≡ ItemType.accept_tx) ⊎ (type ≡ ItemType.remove_tx)
      → load_line c chain (tx_line c type tx) ≡ ok chain
  unfolding load_line item_code
  load-tx_line type tx chain which =
      let (item, parses, code, _) = parse-tx_line c l type tx which in
      rw (parses, load_line)
        (elim which [
          | inl e ↦ rw (code ∙ ap item_code e) refl
          | inr e ↦ rw (code ∙ ap item_code e) refl
        ])

  load-block_line :
      (height : ℤ) (blk : Block) (chain : Chain)
      → IsValid chain
      → load_line c chain (block_line c height blk) ≡ push chain height blk.hash blk.hash_prev_block
  unfolding load_line item_code
  load-block_line height blk chain v =
      let (item, parses, code, at, gets) = parse-block_line c l height blk in
      let some_blocks : (size chain == 0) ≡ false = ground (arith, v.nonempty) in
      rw (parses, load_line)
        (rw code
          (rw gets (rw some_blocks (ap (λ h. push chain h blk.hash blk.hash_prev_block) at))))

  write-Kept :
      (p : Log1Producer) (line : Text) (chain : Chain)
      → Kept c start p
      → load_line c p.chain line ≡ ok chain
      → IsValid chain
      → Kept c start (write_log1 max line (record p { chain = chain }))
  write-Kept p line chain k loads v =
      let (lines, same) = log_lines-write_log1 max line (record p { chain = chain }) in
      let older : log_lines (record p { chain = chain }) ≡ log_lines p = unfold log_lines in refl in
      let load_one : load_lines c p.chain (line ∷ []) ≡ ok chain =
        (unfold load_lines in rw loads refl) in
      record {
        valid = subst IsValid (sym same) v;
        replays =
            ap (load_lines c start) lines
            ∙ ap (λ t. load_lines c start (t ++ line ∷ [])) older
            ∙ load_lines-append c start p.chain (log_lines p) (line ∷ []) k.replays
            ∙ load_one
            ∙ ap ok (sym same);
      }

  -- A block that the chain takes is written so that the files still build the chain.
  pub write_block-Kept :
      (p : Log1Producer) (height : ℤ) (blk : Block) (chain : Chain)
      → Kept c start p
      → push p.chain height blk.hash blk.hash_prev_block ≡ ok chain
      → Kept c start (write_log1 max (block_line c height blk) (record p { chain = chain }))
  write_block-Kept p height blk chain k pushes =
      write-Kept p (block_line c height blk) chain k
        (load-block_line height blk p.chain k.valid ∙ pushes)
        (push-IsValid p.chain chain height blk.hash blk.hash_prev_block k.valid pushes)

  handle_line-Kept :
      (p p' : Log1Producer) (line : Text)
      → Kept c start p
      → handle_line c max p line ≡ ok p'
      → Kept c start p'
  unfolding handle_line
  handle_line-Kept p p' line k h =
      let (item, parses, rest) = >>=-eq-ok (parse c line) _ h in
      elim (Bool-cases (is_type ItemType.accept_tx item)) [
        | inl accepted ↦
            let (tx, _, wrote) = >>=-eq-ok (get_tx c item) _ (rw accepted at rest) in
            subst (Kept c start) (ok-injective wrote) (
              write-Kept p (tx_line c ItemType.accept_tx tx) p.chain k
                (load-tx_line ItemType.accept_tx tx p.chain (inl refl)) k.valid)
        | inr not_accepted ↦
            let rest2 = rw not_accepted at rest in
            elim (Bool-cases (is_type ItemType.remove_tx item)) [
              | inl removed ↦
                  let (tx, _, wrote) = >>=-eq-ok (get_tx c item) _ (rw removed at rest2) in
                  subst (Kept c start) (ok-injective wrote) (
                    write-Kept p (tx_line c ItemType.remove_tx tx) p.chain k
                      (load-tx_line ItemType.remove_tx tx p.chain (inr refl)) k.valid)
              | inr not_removed ↦
                  let rest3 = rw not_removed at rest2 in
                  elim (Bool-cases (is_type ItemType.block item)) [
                    | inl is_block ↦
                        let (blk, _, more) =
                          >>=-eq-ok (get_block c item) _ (rw is_block at rest3) in
                        let (chain, pushes, wrote) = >>=-eq-ok _ _ more in
                        subst (Kept c start) (ok-injective wrote)
                          (write_block-Kept p item.block_height blk chain k pushes)
                    | inr nothing ↦ absurd (let bad = rw nothing at rest3 in cc)
                  ]
            ]
      ]

  -- If the log1 files build up a valid chain that is the producer's, copying any lines of log0,
  -- when it succeeds, keeps this so, for a codec that keeps its promises.
  pub handle_lines-Kept :
      (p p' : Log1Producer) (lines : List Text)
      → Kept c start p
      → handle_lines c max p lines ≡ ok p'
      → Kept c start p'
  unfolding handle_lines
  handle_lines-Kept p p' [] k h = subst (Kept c start) (ok-injective h) k
  handle_lines-Kept p p' (line ∷ lines) k h =
      let (q, first, rest) = >>=-eq-ok (handle_line c max p line) _ h in
      handle_lines-Kept q p' lines (handle_line-Kept p q line k first) rest
