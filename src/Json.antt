-- ===== src/Json.antt =====
-- Values of Python's `json`: what `json.loads` returns and `json.dumps` takes. A number that is no
-- integer is kept as its text.
use safactory_server.Base.{String, ℤ, ℕ, Bool}

mutual
  pub data Json : Type 0 where
    null : Json
    bool : Bool → Json
    int : ℤ → Json
    float : String → Json
    text : String → Json
    array : Items → Json
    object : Fields → Json

  pub data Items : Type 0 where
    nil : Items
    cons : Json → Items → Items

  pub data Fields : Type 0 where
    end : Fields
    field : String → Json → Fields → Fields

abbrev pub count : ℕ → Json
count n = int (ℤ.pos n)
