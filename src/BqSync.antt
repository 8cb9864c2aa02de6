-- ===== src/BqSync.antt =====
-- src/bq_sync: the bronze tables of BigQuery are fed from the operational tables. `iso` is
-- `datetime.isoformat`, `dumps` is `json.dumps` with its default layout.
pub mod Batches
pub mod Missed
use retail_order_sync_hub.Base.{
  ℕ, ◌+◌, pos, String, Bool, true, false, Option, none, some, List, [], ◌∷◌, ◌++◌, map, length,
  select, order_by, cat, leb, ltb, eqb, if◌then◌else◌,
}
use retail_order_sync_hub.Json.{Value, int, str, null, dict, opt_str, opt_int}
use retail_order_sync_hub.Config.{Settings}
use retail_order_sync_hub.Model.{WebhookLog, Order}
use retail_order_sync_hub.Services.{outside}
use retail_order_sync_hub.World.{World}
use retail_order_sync_hub.World.Session.{session_scope}
use retail_order_sync_hub.Exec.{
  Exc, runtime_error, Result, ok, err, Exec, pure, raise, gets, ◌>>=◌, ◌>>◌,
}

-- `bigquery.Client`: the newest time of a column of a table, the creation of a table that is not there
-- yet, and the insertion of rows, with the text of its errors if there are any.
pub record BigQuery (E : Type 0) : Type 0 where
  pub max_timestamp : String → String → Exec E (Option ℕ)
  pub create_table : String → Exec E (Unit {0})
  pub insert_rows_json : String → List Value → Exec E (Option String)

-- `BQClient.table_ref`
unfoldable pub table_ref : Settings → String → String → String
table_ref settings dataset table = cat (settings.bq_project_id ∷ "." ∷ dataset ∷ "." ∷ table ∷ [])

module _ {E : Type 0} (bq : BigQuery E) where
  abbrev inserted : List Value → Option String → Exec E ℕ
  inserted rows none = pure (length rows)
  inserted rows (some errors) =
      raise (runtime_error (cat ("BigQuery insert errors: " ∷ errors ∷ [])))

  -- `BQClient.insert_rows`
  unfoldable pub insert_rows : String → List Value → Exec E ℕ
  insert_rows ref [] = pure 0
  insert_rows ref (row ∷ rows) = bq.insert_rows_json ref (row ∷ rows) >>= inserted (row ∷ rows)

  -- if len(batch) >= bs: total += insert(batch); batch = []
  unfoldable pub insert_full : String → ℕ → List Value → ℕ → Exec E (List Value × ℕ)
  insert_full ref bs batch total =
      if leb bs (length batch)
      then (do n ← insert_rows ref batch; pure ([], total + n))
      else pure (batch, total)

  -- if batch: total += insert(batch)
  unfoldable pub insert_last : String → List Value → ℕ → Exec E ℕ
  insert_last ref [] total = pure total
  insert_last ref (row ∷ batch) total = do n ← insert_rows ref (row ∷ batch); pure (total + n)

  -- The loop over the rows.
  unfoldable pub insert_batches : String → ℕ → List Value → List Value → ℕ → Exec E ℕ
  unfolding insert_full insert_last
  insert_batches ref bs [] batch total = insert_last ref batch total
  insert_batches ref bs (row ∷ rows) batch total = do
    (batch', total') ← insert_full ref bs (batch ++ row ∷ []) total
    insert_batches ref bs rows batch' total'

-- batch_size or settings.bq_batch_size
abbrev pub size_or : Option ℕ → ℕ → ℕ
size_or none d = d
size_or (some n) d = if eqb n 0 then d else n

-- x > watermark, of a column
abbrev pub is_after : Option ℕ → ℕ → Bool
is_after none x = true
is_after (some watermark) x = ltb watermark x

module _ (iso : ℕ → String) (dumps : Value → String) where
  unfoldable pub webhook_value : String → WebhookLog → Value
  webhook_value ingested_at row = dict (
      ("id", int (pos row.id))
      ∷ ("event_id", str row.event_id)
      ∷ ("source", str row.source)
      ∷ ("received_at", str (iso row.received_at))
      ∷ ("raw_body", str (dumps row.raw_body))
      ∷ ("headers", str (dumps row.headers))
      ∷ ("ingested_at", str ingested_at)
      ∷ [])

  -- `_iso`
  abbrev pub opt_iso : Option ℕ → Value
  opt_iso none = null
  opt_iso (some at) = str (iso at)

  unfoldable pub order_value : String → Order → Value
  order_value ingested_at row = dict (
      ("internal_id", int (pos row.internal_id))
      ∷ ("odoo_order_id", opt_int row.odoo_order_id)
      ∷ ("marketplace", str row.marketplace)
      ∷ ("marketplace_order_id", opt_str row.marketplace_order_id)
      ∷ ("status", str row.status)
      ∷ ("last_sync_at", opt_iso row.last_sync_at)
      ∷ ("created_at", str (iso row.created_at))
      ∷ ("updated_at", str (iso row.updated_at))
      ∷ ("ingested_at", str ingested_at)
      ∷ [])

-- The rows of the query: those behind the watermark, by time and then by id.
unfoldable pub new_webhooks : Option ℕ → List WebhookLog → List WebhookLog
new_webhooks watermark table =
    order_by (λ (r : WebhookLog). r.received_at)
      (order_by (λ (r : WebhookLog). r.id)
        (select (λ (r : WebhookLog). is_after watermark r.received_at) table))

unfoldable pub new_orders : Option ℕ → List Order → List Order
new_orders watermark table =
    order_by (λ (r : Order). r.updated_at)
      (order_by (λ (r : Order). r.internal_id)
        (select (λ (r : Order). is_after watermark r.updated_at) table))

module _ {E : Type 0} (bq : BigQuery E) (iso : ℕ → String) (dumps : Value → String)
    (settings : Settings) where
  -- since or bq.max_timestamp(…)
  abbrev pub watermark_of : Option ℕ → String → String → Exec (World E) (Option ℕ)
  watermark_of none ref column = outside (bq.max_timestamp ref column)
  watermark_of (some since) ref column = pure (some since)

  unfoldable pub sync_webhooks : Option ℕ → Option ℕ → Exec (World E) ℕ
  unfolding outside
  sync_webhooks since batch_size = do
    let ref = table_ref settings settings.bq_bronze_dataset "raw_webhooks"
    watermark ← watermark_of since ref "received_at"
    outside (bq.create_table ref)
    now ← gets (λ (w : World E). w.clock)
    rows ← gets (λ (w : World E). new_webhooks watermark w.db.webhook_log)
    outside (
        insert_batches bq ref (size_or batch_size settings.bq_batch_size)
          (map (webhook_value iso dumps (iso now)) rows) [] 0)

  unfoldable pub sync_orders : Option ℕ → Option ℕ → Exec (World E) ℕ
  unfolding outside
  sync_orders since batch_size = do
    let ref = table_ref settings settings.bq_bronze_dataset "raw_orders"
    watermark ← watermark_of since ref "updated_at"
    outside (bq.create_table ref)
    now ← gets (λ (w : World E). w.clock)
    rows ← gets (λ (w : World E). new_orders watermark w.db.orders)
    outside (
        insert_batches bq ref (size_or batch_size settings.bq_batch_size)
          (map (order_value iso dumps (iso now)) rows) [] 0)

  -- The two counts.
  unfoldable pub run_sync : Exec (World E) (ℕ × ℕ)
  unfolding sync_webhooks sync_orders
  run_sync = do
    webhooks ← sync_webhooks none none
    orders ← sync_orders none none
    pure (webhooks, orders)
