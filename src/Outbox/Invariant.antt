-- ===== src/Outbox/Invariant.antt =====
-- The invariant of the outbox: what status, attempts and error of a row say of each other, and the keys.
pub mod Inserted
pub mod Rewritten
pub mod Round
pub mod Inbound
use retail_order_sync_hub.Base.{
  ℕ, ◌≤◌, ◌<◌, String, Option, none, List, [], ◌∷◌, All, All-mono, ◌≡◌, ◌≢◌, ◌↔◌, arith,
}
use retail_order_sync_hub.Model.{OutboxEntry, Status, pending, done, dlq}
use retail_order_sync_hub.Outbox.Queue.{Queue}
use retail_order_sync_hub.Outbox.Enqueue.Insert.{HasUniqueKeys}
use retail_order_sync_hub.Outbox.Processor.Steps.{HasUniqueIds}

-- A pending row has attempts left, and an error exactly if it has been attempted; a row that is done
-- has no error; a dead letter has used up its attempts exactly, and has an error.
abbrev pub Agrees : ℕ → Status → ℕ → Option String → Type 0
Agrees max pending attempts error = (attempts < max) × ((attempts ≡ 0) ↔ (error ≡ none))
Agrees max done attempts error = (attempts < max) × (error ≡ none)
Agrees max dlq attempts error = (attempts ≡ max) × (error ≢ none)

abbrev pub IsConsistent : ℕ → OutboxEntry → Type 0
IsConsistent max row = Agrees max row.status row.attempts row.error_log

-- Every row is consistent, its id has been drawn, and both keys of the table are unique.
pub record IsValid (max : ℕ) (q : Queue) : Type 0 where
  pub consistent : All (IsConsistent max) q.0
  pub drawn : All (λ row. row.id < q.1) q.0
  pub unique_ids : HasUniqueIds q.0
  pub unique_keys : HasUniqueKeys q.0
