-- ===== src/Outcome.antt =====
-- How a call of the C++ code can end: with a value, with a thrown std:: exception, or in undefined
-- behaviour (a null pointer followed, a copy past the end of a block).

pub data Exception : Type 0 where
  out_of_range invalid_argument overflow_error : Exception

pub data Outcome {ℓ} (A : Type ℓ) : Type ℓ where
  ok : A → Outcome A
  throw : Exception → Outcome A
  fault : Outcome A

infixl 5 ◌>>=◌
abbrev pub ◌>>=◌ {ℓ κ} : {A : Type ℓ} {B : Type κ} → Outcome A → (A → Outcome B) → Outcome B
ok a >>= f = f a
throw e >>= f = throw e
fault >>= f = fault
