-- ===== src/Gauges.antt =====
-- The gauges of src/common/metrics.py, which count rows of the outbox in a session of their own.
use retail_order_sync_hub.Base.{ℕ, String, ◌==◌, List, [], ◌∷◌, length, select, ◌≡◌, refl}
use retail_order_sync_hub.Model.{OutboxEntry, Status, status_eq}
use retail_order_sync_hub.World.{World}
use retail_order_sync_hub.World.Session.{session_scope}
use retail_order_sync_hub.Exec.{ok, Exec, gets}
use retail_order_sync_hub.Mcp.Queries.{count_dlq_entries}

module _ {E : Type 0} where
  -- `_count_outbox`
  unfoldable pub count_outbox : Status → Exec (World E) ℕ
  unfolding session_scope
  count_outbox status = session_scope (
      gets (λ (w : World E).
        length (select (λ (row : OutboxEntry). row.status == status) w.db.outbox)))

  -- `_outbox_pending_cb`
  unfoldable pub outbox_pending : Exec (World E) ℕ
  unfolding count_outbox
  outbox_pending = count_outbox Status.pending

  -- `_dlq_depth_cb`
  unfoldable pub dlq_depth : Exec (World E) ℕ
  unfolding count_outbox
  dlq_depth = count_outbox Status.dlq

  -- `register_db_gauges`: the callbacks by the names of the gauges
  abbrev pub gauges : List (String × Exec (World E) ℕ)
  gauges = ("outbox_pending", outbox_pending) ∷ ("dlq_depth", dlq_depth) ∷ []

  -- The gauge of the dead letters is the number that the tools report, and reading it changes nothing.
  pub dlq_depth-count_dlq_entries : (w : World E) → dlq_depth w ≡ (ok (count_dlq_entries w.db), w)
  unfolding dlq_depth count_dlq_entries session_scope gets
  dlq_depth-count_dlq_entries w = refl
