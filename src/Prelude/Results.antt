-- ===== src/Prelude/Results.antt =====
-- What a call ends with: a value, an exception that a `throw` or a failed access raises, or, for a loop
-- on fuel, nothing yet.
use Prim.Native.Nat.{ℕ}
use Prim.Native.String.{String}

pub data Exception : Type 0 where
  message : String → Exception
  type_error : Exception
  foreign : ℕ → Exception

pub data Outcome {ℓ} (A : Type ℓ) : Type ℓ where
  ok : A → Outcome A
  thrown : Exception → Outcome A
  unfinished : Outcome A
