-- ===== src/Prelude/Float.antt =====
-- Go's `float64`, which the language of the proofs does not have: the type and the operations that
-- the code uses are parameters, and `IsFloat64` is what IEEE 754 says of them. A decimal constant
-- of the source, such as 0.05, is the quotient of two whole numbers, which rounds to the same value.
mod Defs
mod Grid
pub use Defs.*
pub use Grid.*
