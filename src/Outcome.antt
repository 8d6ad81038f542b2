-- ===== src/Outcome.antt =====
-- How a call of the simulator's C++ ends: with a value, by an exception, or where the standard says
-- nothing. A method that changes its object returns the object beside the outcome, since what it
-- did before an exception stays done.

pub data Failure : Type 0 where
  -- `std::out_of_range` and `std::runtime_error`
  out_of_range illegal_opcode : Failure
  -- `lru_.back()` of an empty list
  undefined_behaviour : Failure

pub data Outcome (A : Type 0) : Type 0 where
  ok : A → Outcome A
  fail : Failure → Outcome A
