-- ===== src/Json.antt =====
-- JSON values, as task parameters, results and schemas carry them: what `orjson` gives for a text.
-- Numbers are whole; the code never computes with them.
use avtomatika_worker.Base.{String, Bool}
use avtomatika_worker.Base.Int.{ℤ}

mutual
  pub data Json : Type 0 where
    null : Json
    bool : Bool → Json
    num : ℤ → Json
    str : String → Json
    arr : Items → Json
    obj : Fields → Json

  pub data Items : Type 0 where
    nil : Items
    cons : Json → Items → Items

  pub data Fields : Type 0 where
    end : Fields
    field : String → Json → Fields → Fields
