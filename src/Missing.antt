-- ===== src/Missing.antt =====
-- pybotx/missing.py: a field that may be skipped. `Undefined` is a singleton, so `is Undefined` is
-- a test of the constructor.
use pybotx.Common.{Bool, true, false}

pub data Missing {ℓ} (A : Type ℓ) : Type ℓ where
  undefined : Missing A
  given : A → Missing A

abbrev pub is_undefined {ℓ} : {A : Type ℓ} → Missing A → Bool
is_undefined undefined = true
is_undefined (given a) = false
