-- ===== src/LogFile/Reading.antt =====
-- The lines that one read of a log file takes from its text.
use explorer_kv.Prelude.{
  ℕ, zero, suc, ◌+◌, ◌<◌, false, none, some, List, [], ◌∷◌, ◌++◌, ◌≡◌, refl, sym, ap, ◌∙◌, inl, inr,
  arith, ◌==◌, ==_iff, elem, length, drop, All, Bool-cases, Option-cases, append_assoc, subst,
}
use explorer_kv.Log1.{Text, newline}
use explorer_kv.LogFile.{get_line, read_lines}

-- the text of lines, each with its end
abbrev pub unlines : List Text → Text
unlines [] = []
unlines (line ∷ lines) = line ++ (newline ∷ unlines lines)

abbrev pub IsLine : Text → Type 0
IsLine line = elem newline line ≡ false

some-injective : {a b : Text × Text} → some a ≡ some b → a ≡ b
some-injective h = cc

get_line-eq-some :
    (s : Text) {line rest : Text}
    → get_line s ≡ some (line, rest)
    → (s ≡ line ++ (newline ∷ rest)) × IsLine line
unfolding get_line
get_line-eq-some [] e = cc
get_line-eq-some (c ∷ s) {line} {rest} e = elim (Bool-cases (c == newline)) [
  | inl same ↦ ground (arith, ==_iff c newline)
  | inr other ↦ elim (Option-cases (get_line s)) [
    | inl gone ↦ ground (arith, other, gone)
    | inr ((l, r), found) ↦
        let (shape, plain) = get_line-eq-some s found in
        let read : get_line (c ∷ s) ≡ some (c ∷ l, r) = rw (found, get_line) (rw other refl) in
        let same : (c ∷ l, r) ≡ (line, rest) = some-injective (sym read ∙ e) in
        subst (λ (p : Text × Text). (c ∷ s ≡ p.0 ++ (newline ∷ p.1)) × IsLine p.0) same
          (ap (λ t. c ∷ t) shape, ground (arith, other, plain))
  ]
]

get_line-eq-none : (s : Text) → get_line s ≡ none → IsLine s
unfolding get_line
get_line-eq-none [] e = refl
get_line-eq-none (c ∷ s) e = elim (Bool-cases (c == newline)) [
  | inl same ↦ ground (arith, same)
  | inr other ↦ elim (Option-cases (get_line s)) [
    | inl gone ↦ ground (arith, other, get_line-eq-none s gone)
    | inr (lr, found) ↦ ground (arith, other, found)
  ]
]

drop_at : (k n : ℕ) (c : ℕ) (s : Text) → k ≡ suc n → drop k (c ∷ s) ≡ drop n s
drop_at k n c s h = ap (λ j. drop j (c ∷ s)) h

-- an offset behind a line and its end
drop-line :
    (line rest : Text) (n : ℕ)
    → drop (suc (length line) + n) (line ++ (newline ∷ rest)) ≡ drop n rest
drop-line [] rest n = drop_at (1 + n) n newline rest (omega arith)
drop-line (c ∷ line) rest n =
    drop_at (suc (suc (length line)) + n) (suc (length line) + n) c (line ++ (newline ∷ rest))
      (omega arith)
    ∙ drop-line line rest n

-- The lines read from a text, each with its end, and what stands behind the new offset make up
-- the text; no line holds a newline; and where fewer lines than the limit were read, no
-- complete line is left.
pub read_lines_whole :
    (rounds : ℕ) (s : Text)
    → (s ≡ unlines (read_lines rounds s).0 ++ drop (read_lines rounds s).1 s)
      × All IsLine (read_lines rounds s).0
      × (length (read_lines rounds s).0 < rounds → IsLine (drop (read_lines rounds s).1 s))
unfolding read_lines
read_lines_whole zero s = (refl, tt, λ less. absurd (omega arith))
read_lines_whole (suc rounds) s = elim (Option-cases (get_line s)) [
  | inl gone ↦ rw (gone, read_lines) (refl, tt, λ less. get_line-eq-none s gone)
  | inr ((line, rest), found) ↦
      let (shape, plain) = get_line-eq-some s found in
      let (whole, lines_ok, ends) = read_lines_whole rounds rest in
      let n = (read_lines rounds rest).1 in
      let lines = (read_lines rounds rest).0 in
      let left : drop (suc (length line) + n) s ≡ drop n rest =
        ap (drop (suc (length line) + n)) shape ∙ drop-line line rest n in
      let glued : line ++ (newline ∷ rest) ≡ line ++ (newline ∷ unlines lines) ++ drop n rest =
        ap (λ t. line ++ (newline ∷ t)) whole
        ∙ sym (append_assoc line (newline ∷ unlines lines) (drop n rest)) in
      rw (found, read_lines)
        (
          shape ∙ glued ∙ ap (λ t. line ++ (newline ∷ unlines lines) ++ t) (sym left),
          (plain, lines_ok),
          λ less. subst IsLine (sym left) (ends (omega arith)),
        )
]
