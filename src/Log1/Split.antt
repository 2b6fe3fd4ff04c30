-- ===== src/Log1/Split.antt =====
-- `split` of jiexi/src/Util.cc on texts that are joined by the delimiter.
use explorer_kv.Prelude.{
  ℕ, true, false, [], ◌∷◌, ◌++◌, ◌≡◌, ◌≢◌, refl, arith, ◌==◌, ==_iff, elem, length, take, drop, ap,
}
use explorer_kv.Log1.{Text, split_all, same_text}

-- A piece without the delimiter, then the delimiter.
pub split_all-piece :
    (delim : ℕ) (p s : Text)
    → elem delim p ≡ false
    → split_all delim (p ++ delim ∷ s) ≡ p ∷ split_all delim s
unfolding split_all
split_all-piece delim [] s h = rw ((==_iff delim delim).1 refl) refl
split_all-piece delim (c ∷ p) s h =
    let other : (c == delim) ≡ false = ground arith in
    rw (split_all-piece delim p s (ground arith)) (rw other refl)

-- A last piece that is not empty.
pub split_all-last :
    (delim c : ℕ) (p : Text) → elem delim (c ∷ p) ≡ false → split_all delim (c ∷ p) ≡ (c ∷ p) ∷ []
unfolding split_all
split_all-last delim c [] h = let other : (c == delim) ≡ false = ground arith in rw other refl
split_all-last delim c (d ∷ p) h =
    let other : (c == delim) ≡ false = ground arith in
    rw (split_all-last delim d p (ground arith)) (rw other refl)

pub take-append : (p s : Text) → take (length p) (p ++ s) ≡ p
take-append [] s = refl
take-append (c ∷ p) s = ap (λ t. c ∷ t) (take-append p s)

pub drop-append : (p s : Text) → drop (length p) (p ++ s) ≡ s
drop-append [] s = refl
drop-append (c ∷ p) s = drop-append p s

pub split_all-whole :
    (delim : ℕ) (p : Text) → p ≢ [] → elem delim p ≡ false → split_all delim p ≡ p ∷ []
split_all-whole delim [] some_text h = absurd (some_text refl)
split_all-whole delim (c ∷ p) some_text h = split_all-last delim c p h

pub same_text_refl : (s : Text) → same_text s s ≡ true
same_text_refl [] = refl
same_text_refl (c ∷ s) = rw ((==_iff c c).1 refl) (same_text_refl s)
