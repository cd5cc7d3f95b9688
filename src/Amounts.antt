-- ===== src/Amounts.antt =====
-- Quantities and scales are Python floats. The program multiplies, adds and compares them; the
-- operations are a parameter of the model.
use meals.Prelude.{Bool}

pub record Amount (Q : Type 0) : Type 0 where
  pub times : Q → Q → Q
  pub plus : Q → Q → Q
  pub zero : Q
  pub one : Q
  pub eq : Q → Q → Bool
