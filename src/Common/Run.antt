-- ===== src/Common/Run.antt =====
-- Code that may fault or run out of fuel. `fault` is an access through `NULL`, or behind an array.
use mathlib.Core.Option.{Option, none, some}

pub data Run (A : Type 0) : Type 0 where
  ok : A → Run A
  fault : Run A
  out_of_fuel : Run A

infixl 5 ◌>>=◌
abbrev pub ◌>>=◌ : {A B : Type 0} → Run A → (A → Run B) → Run B
ok a >>= f = f a
fault >>= f = fault
out_of_fuel >>= f = out_of_fuel

abbrev pub or_fault : {A : Type 0} → Option A → Run A
or_fault none = fault
or_fault (some a) = ok a
