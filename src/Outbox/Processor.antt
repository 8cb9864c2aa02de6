-- ===== src/Outbox/Processor.antt =====
-- src/outbox_worker/processor.py
pub mod Entry
pub mod Letters
pub mod Batch
pub mod Steps
pub mod Cycle
pub mod Retries
pub mod Others
use retail_order_sync_hub.Base.{
  ℕ, ◌+◌, ◌*◌, ◌/◌, ◌^◌, min, String, ◌==◌, nat_eq, string_eq, Bool, ◌&&◌, Option, none, some, List,
  [], ◌∷◌, ◌++◌, map, select, take, find, order_by, leb, cat, pos, if◌then◌else◌,
}
use retail_order_sync_hub.Json.{Value, int, str, dict}
use retail_order_sync_hub.Config.{Settings}
use retail_order_sync_hub.Services.{Runtime, Publisher, Random, outside}
use retail_order_sync_hub.Model.{OutboxEntry, Status, status_eq}
use retail_order_sync_hub.World.{World, count}
use retail_order_sync_hub.Exec.{
  exc_text, runtime_error, Result, ok, err, Exec, pure, raise, lift, gets, ◌>>=◌, ◌>>◌,
}
use retail_order_sync_hub.Adapters.Dto.{PushResult, Adapter, order_from_payload}

pub data Outcome : Type 0 where
  done retry dlq : Outcome

abbrev pub outcome_text : Outcome → String
outcome_text done = "done"
outcome_text retry = "retry"
outcome_text dlq = "dlq"

-- The registry of adapters, by name.
abbrev pub Adapters : Type 0 → Type 0
Adapters E = List (String × Adapter E)

-- adapters.get(name)
unfoldable pub adapter_of : {E : Type 0} → String → Adapters E → Option (Adapter E)
adapter_of name [] = none
adapter_of name ((k, a) ∷ rest) = if k == name then some a else adapter_of name rest

abbrev pub second : ℕ
second = 1000000

-- min(2**attempts, 300), in seconds
unfoldable pub base_delay : ℕ → ℕ
base_delay attempts = min (2 ^ attempts) 300

-- `_dlq_bytes`, before it is encoded
abbrev pub dlq_body : OutboxEntry → String → Value
dlq_body row error = dict (
    ("outbox_id", int (pos row.id))
    ∷ ("aggregate_id", str row.aggregate_id)
    ∷ ("target_adapter", str row.target_adapter)
    ∷ ("attempts", int (pos row.attempts))
    ∷ ("error", str error)
    ∷ ("payload", row.payload)
    ∷ [])

module _ {E : Type 0} where
  -- order_sync.add(1, {"target_adapter": …, "status": …})
  unfoldable pub count_sync : OutboxEntry → Outcome → Exec (World E) (Unit {0})
  unfolding count
  count_sync row o w = (
    ok tt,
    count "order_sync" (("target_adapter", row.target_adapter) ∷ ("status", outcome_text o) ∷ []) w,
  )

-- The due entries: status pending and `next_attempt_at <= now`, by id, at most `batch_size`.
unfoldable pub is_due : ℕ → OutboxEntry → Bool
is_due now row = row.status == Status.pending && leb row.next_attempt_at now

unfoldable pub due_rows : ℕ → ℕ → List OutboxEntry → List OutboxEntry
due_rows now batch_size table =
    take batch_size (order_by (λ (r : OutboxEntry). r.id) (select (is_due now) table))

-- Writing back the rows that a session has loaded and changed: each table row of the same id is
-- replaced, and `onupdate=func.now()` sets its `updated_at`.
abbrev pub stored : ℕ → OutboxEntry → Option OutboxEntry → OutboxEntry
stored now row none = row
stored now row (some changed) = record changed { updated_at = now }

unfoldable pub flush : ℕ → List OutboxEntry → List OutboxEntry → List OutboxEntry
flush now rows [] = []
flush now rows (row ∷ table) =
    stored now row (find (λ (r : OutboxEntry). r.id == row.id) rows) ∷ flush now rows table

module _ {E : Type 0} (rt : Runtime) (random : Random E) (publisher : Publisher E)
    (settings : Settings) (adapters : Adapters E) (now : ℕ) where
  -- `_backoff`: the base and a jitter of up to a quarter of it
  unfoldable pub backoff : ℕ → Exec (World E) ℕ
  backoff attempts w =
      let base = base_delay attempts * second in
      let (jitter, e) = random.uniform (base / 4) w.env in
      (ok (base + jitter), record w { env = e })

  push_with : OutboxEntry → Option (Adapter E) → Exec (World E) PushResult
  push_with row none =
      raise (runtime_error (cat ("no adapter registered for '" ∷ row.target_adapter ∷ "'" ∷ [])))
  push_with row (some adapter) = do
    order ← lift (order_from_payload rt row.payload)
    adapter.push_order order

  -- The body of the `try`.
  unfoldable pub attempt : OutboxEntry → Exec (World E) PushResult
  unfolding push_with
  attempt row = push_with row (adapter_of row.target_adapter adapters)

  to_dlq : OutboxEntry → String → Exec (World E) (OutboxEntry × Outcome)
  unfolding count_sync
  to_dlq row error = do
    outside (
        publisher.publish settings.pubsub_topic_sync_dlq (rt.dumps (dlq_body row error))
          (("aggregate_id", row.aggregate_id) ∷ ("target_adapter", row.target_adapter) ∷ []))
    count_sync row dlq
    pure (row, dlq)

  to_retry : OutboxEntry → Exec (World E) (OutboxEntry × Outcome)
  unfolding backoff count_sync
  to_retry row = do
    delay ← backoff row.attempts
    count_sync row retry
    pure (record row { status = Status.pending; next_attempt_at = now + delay }, retry)

  -- The `except` clause.
  unfoldable pub failed : OutboxEntry → String → Exec (World E) (OutboxEntry × Outcome)
  unfolding to_dlq to_retry
  failed row error =
      let row' = record row { attempts = row.attempts + 1; error_log = some error } in
      if leb settings.outbox_max_attempts row'.attempts
      then to_dlq (record row' { status = Status.dlq }) error
      else to_retry row'

  -- What follows the `try`.
  unfoldable pub pushed : OutboxEntry → Exec (World E) (OutboxEntry × Outcome)
  unfolding count_sync
  pushed row = do
    count_sync row done
    pure (record row { status = Status.done; error_log = none }, done)

  unfoldable pub settle : OutboxEntry → Result PushResult → Exec (World E) (OutboxEntry × Outcome)
  unfolding failed pushed
  settle row (ok result) = pushed row
  settle row (err e) = failed row (exc_text e)

  -- The row as it is mutated, and the outcome that is returned.
  unfoldable pub process_entry : OutboxEntry → Exec (World E) (OutboxEntry × Outcome)
  unfolding settle attempt
  process_entry row w = let (r, w') = attempt row w in settle row r w'

  -- The loop of `process_pending`.
  unfoldable pub process_rows : List OutboxEntry → Exec (World E) (List (OutboxEntry × Outcome))
  process_rows [] = pure []
  process_rows (row ∷ rows) = do
    result ← process_entry row
    results ← process_rows rows
    pure (result ∷ results)

  -- The session's commit: the changed rows are written. The rows are locked until then, and what an
  -- adapter commits in a session of its own has been written already.
  unfoldable pub write_back : List (OutboxEntry × Outcome) → Exec (World E) (List (ℕ × Outcome))
  write_back results w = (
    ok (map (λ (r : OutboxEntry × Outcome). (r.0.id, r.1)) results),
    record w {
      db = record w.db {
        outbox = flush w.clock (map (λ (r : OutboxEntry × Outcome). r.0) results) w.db.outbox;
      };
    },
  )

  -- An exception that leaves the loop leaves the session's rows unwritten.
  unfoldable pub process_pending : ℕ → Exec (World E) (List (ℕ × Outcome))
  process_pending batch_size = do
    rows ← gets (λ (w : World E). due_rows now batch_size w.db.outbox)
    results ← process_rows rows
    write_back results
