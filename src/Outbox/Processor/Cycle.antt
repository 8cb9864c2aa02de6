-- ===== src/Outbox/Processor/Cycle.antt =====
-- A cycle of the outbox worker that returns: what it has done to every row of the table.
use mathlib.Core.Path.{subst}
use retail_order_sync_hub.Base.{
  ℕ, ◌≤◌, List, [], ◌∷◌, map, length, length-map, All-In, ◌≡◌, refl, sym, ap, ◌∙◌, arith,
}
use retail_order_sync_hub.Config.{Settings}
use retail_order_sync_hub.Services.{Runtime, Publisher, Random, IsUniform}
use retail_order_sync_hub.Model.{OutboxEntry}
use retail_order_sync_hub.World.{World}
use retail_order_sync_hub.Exec.{ok, ok-injective, pure}
use retail_order_sync_hub.Outbox.Processor.{
  Outcome, Adapters, process_rows, process_pending, write_back, due_rows,
}
use retail_order_sync_hub.Outbox.Processor.Entry.{process_entry-Transition}
use retail_order_sync_hub.Outbox.Processor.Batch.{
  due_rows-IsDue, length-due_rows, AllKeepOutbox, outbox-rows_loop, process_pending_ok,
  rows_loop_cons, rows_loop,
}
use retail_order_sync_hub.Outbox.Processor.Steps.{
  HasUniqueIds, due_rows-In, Pointwise, Processed, RowStep, length-Processed, flush-Pointwise,
}

module _ {E : Type 0} (rt : Runtime) (random : Random E) (publisher : Publisher E)
    (settings : Settings) (adapters : Adapters E) (now : ℕ) (uniform : IsUniform random) where
  rows_loop_nil :
      (w : World E) → (rows_loop rt random publisher settings adapters now [] w).0 ≡ ok []
  unfolding process_rows pure
  rows_loop_nil w = refl

  write_back_outcomes :
      (results : List (OutboxEntry × Outcome)) (w : World E)
      → (write_back rt random publisher settings adapters now results w).0
        ≡ ok (map (λ (r : OutboxEntry × Outcome). (r.0.id, r.1)) results)
  unfolding write_back
  write_back_outcomes results w = refl

  rows_loop-Processed :
      (rows : List OutboxEntry) (w : World E) {results : List (OutboxEntry × Outcome)}
      → (rows_loop rt random publisher settings adapters now rows w).0 ≡ ok results
      → Processed settings.outbox_max_attempts now rows results
  rows_loop-Processed [] w h =
      subst (Processed settings.outbox_max_attempts now [])
        (ok-injective (sym (rows_loop_nil w) ∙ h)) tt
  rows_loop-Processed (row ∷ rows) w h =
      let ((row', o), rest, eq, e, f) =
        rows_loop_cons rt random publisher settings adapters now row rows w h in
      rw eq (
        (_, process_entry-Transition rt random publisher settings adapters now uniform row w e),
        rows_loop-Processed rows _ f,
      )

  -- The batch of a cycle: at most `batch_size` rows, pending, due, in the order of their ids.
  abbrev pub batch_of : ℕ → World E → List OutboxEntry
  batch_of batch_size w = due_rows now batch_size w.db.outbox

  -- A cycle that returns has an outcome for each row of its batch, so at most `batch_size`. In the
  -- table every row of the batch was due and has made the transition of a push's result, and every
  -- other row is as it was. The ids of the table are unique, a push leaves the table alone, and the
  -- jitter is within its bound.
  pub process_pending_cycle :
      (batch_size : ℕ) (w : World E) {outcomes : List (ℕ × Outcome)}
      → HasUniqueIds w.db.outbox
      → AllKeepOutbox adapters
      → (process_pending rt random publisher settings adapters now batch_size w).0 ≡ ok outcomes
      → (length outcomes ≡ length (batch_of batch_size w))
        × (length outcomes ≤ batch_size)
        × Pointwise
            (RowStep settings.outbox_max_attempts now (batch_of batch_size w))
            w.db.outbox
            (process_pending rt random publisher settings adapters now batch_size w).1.db.outbox
  process_pending_cycle batch_size w {outcomes} unique keeps h =
      let (results, e, eq) =
        process_pending_ok rt random publisher settings adapters now batch_size w h in
      let batch = batch_of batch_size w in
      let w' = (rows_loop rt random publisher settings adapters now batch w).1 in
      let processed = rows_loop-Processed batch w e in
      let ends = ok-injective (sym (write_back_outcomes results w') ∙ rw eq at h) in
      let count : length outcomes ≡ length batch =
        ap length (sym ends)
        ∙ length-map results (λ (r : OutboxEntry × Outcome). (r.0.id, r.1))
        ∙ length-Processed settings.outbox_max_attempts now batch results processed in
      let table =
        flush-Pointwise settings.outbox_max_attempts now w.db.outbox batch results w'.clock unique
          (due_rows-IsDue now batch_size w.db.outbox) (due_rows-In now batch_size w.db.outbox)
          processed w.db.outbox (All-In w.db.outbox) in
      (
        count,
        omega (arith, count, length-due_rows now batch_size w.db.outbox),
        rw eq (
            unfold write_back in
            rw (outbox-rows_loop rt random publisher settings adapters now batch w keeps) table),
      )
