-- ===== src/Vm/Value.antt =====
-- `Value` of src/vm.rs, and the messages of the operators. Float arithmetic is the hardware's: a
-- parameter over bit patterns.
use aipl.Base.{ℕ, ℤ, String, Bool}
use aipl.Ast.Op.{OpCode}

mutual
  pub data Value : Type 0 where
    -- an i32, stored in an i64 and truncated by every operation
    int : ℤ → Value
    int64 : ℤ → Value
    float : ℕ → Value
    float32 : ℕ → Value
    bool : Bool → Value
    str : String → Value
    record_of : Values → Value
    union : ℕ → Values → Value
    ok_of : Value → Value
    err_of : Value → Value
    void : Value

  pub data Values : Type 0 where
    nil : Values
    cons : Value → Values → Values

-- f64 and f32 arithmetic and comparison on bit patterns.
pub record FloatOps : Type 0 where
  pub add64 : ℕ → ℕ → ℕ
  pub sub64 : ℕ → ℕ → ℕ
  pub mul64 : ℕ → ℕ → ℕ
  pub div64 : ℕ → ℕ → ℕ
  pub lt64 : ℕ → ℕ → Bool
  pub le64 : ℕ → ℕ → Bool
  pub add32 : ℕ → ℕ → ℕ
  pub sub32 : ℕ → ℕ → ℕ
  pub mul32 : ℕ → ℕ → ℕ
  pub div32 : ℕ → ℕ → ℕ
  pub lt32 : ℕ → ℕ → Bool
  pub le32 : ℕ → ℕ → Bool

pub data VmError : Type 0 where
  invalid_types : OpCode → VmError
  division_by_zero integer_overflow : VmError
  checked_overflow : OpCode → VmError
