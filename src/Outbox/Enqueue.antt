-- ===== src/Outbox/Enqueue.antt =====
-- src/outbox_worker/enqueue.py
pub mod Growth
pub mod Insert
pub mod Idempotence
use retail_order_sync_hub.Base.{
  ℕ, ◌+◌, String, ◌==◌, string_eq, Bool, false, true, ◌&&◌, none, List, [], ◌∷◌, ◌++◌, any, str_int,
  if◌then◌else◌,
}
use retail_order_sync_hub.Model.{OutboxEntry, Status}
use retail_order_sync_hub.World.{World}
use retail_order_sync_hub.Exec.{Exec, ok, pure, ◌>>=◌}
use retail_order_sync_hub.World.Session.{session_scope}
use retail_order_sync_hub.Adapters.Dto.{OrderDto, model_dump}

-- The columns of the constraint `uq_outbox_aggregate_target`.
unfoldable pub has_key : String → String → OutboxEntry → Bool
has_key aggregate target row = row.aggregate_id == aggregate && row.target_adapter == target

-- The row of the `INSERT`, with the columns' defaults.
abbrev pub new_entry : OrderDto → String → ℕ → ℕ → OutboxEntry
new_entry order target id now = record {
  id = id;
  aggregate_type = "order";
  aggregate_id = str_int order.odoo_order_id;
  payload = model_dump order;
  target_adapter = target;
  status = Status.pending;
  attempts = 0;
  next_attempt_at = now;
  error_log = none;
  created_at = now;
  updated_at = now;
}

module _ {E : Type 0} where
  -- INSERT … ON CONFLICT DO NOTHING RETURNING id: whether a row came back. The id is drawn before
  -- the conflict is seen.
  unfoldable pub insert_entry : OrderDto → String → Exec (World E) Bool
  unfolding has_key
  insert_entry order target w =
      let id = w.seq.outbox in
      let w' = record w { seq = record w.seq { outbox = id + 1 } } in
      if any (has_key (str_int order.odoo_order_id) target) w.db.outbox then (ok false, w') else (
        ok true,
        record w' {
          db = record w.db { outbox = w.db.outbox ++ new_entry order target id w.clock ∷ [] };
        },
      )

  -- The inner loop, over the targets, and the outer loop, over the orders.
  unfoldable pub enqueue_targets : OrderDto → List String → ℕ → Exec (World E) ℕ
  enqueue_targets order [] inserted = pure inserted
  enqueue_targets order (target ∷ targets) inserted = do
    new ← insert_entry order target
    enqueue_targets order targets (if new then inserted + 1 else inserted)

  unfoldable pub enqueue_all : List OrderDto → List String → ℕ → Exec (World E) ℕ
  enqueue_all [] targets inserted = pure inserted
  enqueue_all (order ∷ orders) targets inserted = do
    inserted' ← enqueue_targets order targets inserted
    enqueue_all orders targets inserted'

  unfoldable pub enqueue_orders : List OrderDto → List String → Exec (World E) ℕ
  enqueue_orders orders targets = session_scope (enqueue_all orders targets 0)
