-- ===== src/World.antt =====
-- The state of the running system, and the transactional scope of src/common/db.py.
-- What is outside the program (the broker, the ERP, the marketplaces) is a type `E` that the
-- services of `Services` act on.
pub mod Session
pub mod Keeps
use retail_order_sync_hub.Base.{ℕ, String, List, [], ◌∷◌, ◌++◌}
use retail_order_sync_hub.Model.{Db, Sequences}

-- One step of a counter of src/common/metrics.py, with its attributes.
pub record Measurement : Type 0 where
  pub counter : String
  pub attributes : List (String × String)

-- `clock` is what `datetime.now(UTC)` and `now()` of the database read. It does not move while one
-- operation runs.
pub record World (E : Type 0) : Type 0 where
  pub db : Db
  pub seq : Sequences
  pub clock : ℕ
  pub metrics : List Measurement
  pub env : E

module _ {E : Type 0} where
  -- counter.add(1, attributes)
  unfoldable pub count : String → List (String × String) → World E → World E
  count counter attributes w = record w {
    metrics = w.metrics ++ record { counter = counter; attributes = attributes } ∷ [];
  }
