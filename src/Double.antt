-- ===== src/Double.antt =====
-- `double`, with the operations that server/src/rdt/RdtSender.cpp uses. The code of these operations
-- is the compiler's and the standard library's, so they are a parameter of the sender: its theorems
-- hold for any arithmetic. `ticks` is an instance with which the model runs.
use socket_programming.Base.{ℕ, ◌+◌, ◌-◌, ◌*◌, ◌/◌, leb, if◌then◌else◌}

-- An `int`: `negsuc n` is -(n + 1).
pub data ℤ : Type 0 where
  pos : ℕ → ℤ
  negsuc : ℕ → ℤ

pub record Double : Type 1 where
  pub D : Type 0
  pub of_ℕ : ℕ → D
  pub add : D → D → D
  pub sub : D → D → D
  pub mul : D → D → D
  pub div : D → D → D
  pub abs : D → D
  pub max : D → D → D
  pub floor_size : D → ℕ  -- `static_cast<size_t>(std::floor(x))`
  pub ceil_int : D → ℤ  -- `static_cast<int>(std::ceil(x))`
  pub of_ns : ℕ → D  -- a span of the clock, in nanoseconds, as milliseconds

-- Numbers in steps of 1/1000, rounded down, with no sign: enough to run the model.
abbrev pub ticks : Double
ticks = record {
  D = ℕ;
  of_ℕ = λ n. n * 1000;
  add = λ a b. a + b;
  sub = λ a b. a - b;
  mul = λ a b. a * b / 1000;
  div = λ a b. a * 1000 / b;
  abs = λ a. a;
  max = λ a b. if leb a b then b else a;
  floor_size = λ a. a / 1000;
  ceil_int = λ a. pos ((a + 999) / 1000);
  of_ns = λ n. n / 1000;
}
