-- ===== src/Prelude/Results.antt =====
-- The outcome of code that returns a value or raises an exception.

pub data Result (E A : Type 0) : Type 0 where
  ok : A → Result E A
  err : E → Result E A
