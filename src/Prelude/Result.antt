-- ===== src/Prelude/Result.antt =====
-- What a C++ function that may stop does: it returns, it throws, or an `assert` aborts it.
use mathlib.Core.Path.{◌≡◌, refl, ap}
use mathlib.Core.Logic.{◌⊎◌, inl, inr}
use mathlib.Core.Bool.{Bool, true, false}

-- `exception` is THROW_EXCEPTION_DBEX and its relatives, `assertion` a failed `assert`, and
-- `out_of_fuel` a loop or a recursion of the model that was cut off, `unmodelled` a point from which
-- the model does not follow the code.
pub data Error : Type 0 where
  exception assertion out_of_fuel unmodelled : Error

pub data Result {ℓ} (V : Type ℓ) : Type ℓ where
  err : Error → Result V
  ok : V → Result V

-- a test whose failure stops with the error
abbrev pub guard : Bool → Error → Result (Unit {0})
guard false stop = err stop
guard true stop = ok tt

pub ok-injective {ℓ} : {V : Type ℓ} {v w : V} → ok v ≡ ok w → v ≡ w
ok-injective same = cc

-- What follows runs only after a return.
infixl 5 ◌>>=◌
abbrev pub ◌>>=◌ {κ ℓ} : {V : Type κ} {W : Type ℓ} → Result V → (V → Result W) → Result W
err stop >>= next = err stop
ok v >>= next = next v

infixl 5 ◌>>◌
abbrev pub ◌>>◌ {ℓ} : {W : Type ℓ} → Result (Unit {0}) → Result W → Result W
first >> second = first >>= λ done. second

module _ {κ ℓ} {V : Type κ} {W : Type ℓ} where
  -- a run goes on from a first step that returned
  pub >>=-ok : {m : Result V} {v : V} → m ≡ ok v → (next : V → Result W) → (m >>= next) ≡ next v
  >>=-ok returned next = ap (λ r. r >>= next) returned

  -- both steps of a run that returned
  pub >>=-eq-ok :
      (m : Result V) (next : V → Result W) {w : W}
      → (m >>= next) ≡ ok w
      → (v : V) × (m ≡ ok v) × (next v ≡ ok w)
  >>=-eq-ok (err stop) next run = cc
  >>=-eq-ok (ok v) next run = (v, refl, run)

  -- the step at which a run stopped
  pub >>=-eq-err :
      (m : Result V) (next : V → Result W) {stop : Error}
      → (m >>= next) ≡ err stop
      → (m ≡ err stop) ⊎ ((v : V) × (m ≡ ok v) × (next v ≡ err stop))
  >>=-eq-err (err k) next run = inl (let same : k ≡ _ = cc in ap err same)
  >>=-eq-err (ok v) next run = inr (v, refl, run)
