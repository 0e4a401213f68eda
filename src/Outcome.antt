-- ===== src/Outcome.antt =====
-- The outcome of a Go function that returns an error: a value, an error, or a panic. An action also
-- changes the state of the cluster, and what it wrote before an error or a panic stays written.
pub mod Laws
use formol.Prelude.{String, Bool, true, false}

-- An error of the API: `errors.IsNotFound` holds of the first.
pub data Error : Type 0 where
  not_found : Error
  failed : String → Error

abbrev pub is_not_found : Error → Bool
is_not_found not_found = true
is_not_found (failed _) = false

pub data Result {ℓ} (A : Type ℓ) : Type ℓ where
  ok : A → Result A
  err : Error → Result A
  panic : Result A

abbrev pub Action : Type 0 → Type 0 → Type 0
Action W A = W → Result A × W

abbrev pub caught : {A : Type 0} → Result A → Result (Result A)
caught (ok a) = ok (ok a)
caught (err e) = ok (err e)
caught panic = panic

module _ {W : Type 0} where
  abbrev pub return : {A : Type 0} → A → Action W A
  return a w = (ok a, w)

  abbrev pub throw : {A : Type 0} → Error → Action W A
  throw e w = (err e, w)

  -- A read, which leaves the cluster as it is.
  abbrev pub read : {A : Type 0} → (W → Result A) → Action W A
  read f w = (f w, w)

  abbrev pub lift : {A : Type 0} → Result A → Action W A
  lift r w = (r, w)

  abbrev pub resume : {A B : Type 0} → (A → Action W B) → Result A → Action W B
  resume f (ok a) w = f a w
  resume f (err e) w = (err e, w)
  resume f panic w = (panic, w)

  infixl 5 ◌>>=◌ ◌>>◌
  -- `if err != nil { return err }` after a call.
  abbrev pub ◌>>=◌ : {A B : Type 0} → Action W A → (A → Action W B) → Action W B
  ◌>>=◌ m f w = let (r, w') = m w in resume f r w'

  abbrev pub ◌>>◌ : {A B : Type 0} → Action W A → Action W B → Action W B
  m >> k = m >>= λ _. k

  -- A call whose error the caller looks at itself. A panic goes through.
  abbrev pub attempt : {A : Type 0} → Action W A → Action W (Result A)
  attempt m w = let (r, w') = m w in (caught r, w')

  -- A call whose error is only logged.
  abbrev pub ignore : {A : Type 0} → Action W A → Action W (Unit {0})
  ignore m w = let (r, w') = attempt m w in resume (λ _. return tt) r w'
