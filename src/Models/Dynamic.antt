-- ===== src/Models/Dynamic.antt =====
-- What the source types as `Any`: the values that JSON has, and other objects by their `str`.
use distributed_task_runner.Base.{String, Bool}
use distributed_task_runner.Base.Int.{ℤ}

mutual
  pub data Value : Type 0 where
    null : Value
    truth : Bool → Value
    number : ℤ → Value
    text : String → Value
    array : Values → Value
    object : Fields → Value
    other : String → Value

  pub data Values : Type 0 where
    nil : Values
    cons : Value → Values → Values

  pub data Fields : Type 0 where
    end : Fields
    field : String → Value → Fields → Fields
