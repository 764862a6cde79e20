-- ===== src/Stats/Float64.antt =====
-- What package stats uses of Go's float64, as an interface: `R` is the type, and int64 values are
-- 64-bit patterns. No law of rounding is assumed.
use instrumentation_go.Base.{ℕ, Bool}

pub record Float64 (R : Type 0) : Type 0 where
  pub lt : R → R → Bool
  pub eq : R → R → Bool
  pub add : R → R → R
  pub sub : R → R → R
  pub mul : R → R → R
  pub div : R → R → R
  pub pow : R → R → R
  pub pow10 : ℕ → R
  pub of_int64 : ℕ → R
  pub of_uint64 : ℕ → R
  pub to_int64 : R → ℕ
  pub zero_float : R
  pub half : R
  pub two : R
  pub max_float64 : R
  pub smallest_nonzero_float64 : R
