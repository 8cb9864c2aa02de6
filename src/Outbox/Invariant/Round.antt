-- ===== src/Outbox/Invariant/Round.antt =====
-- A cycle of the outbox worker preserves the invariant of the outbox.
use mathlib.Core.Path.{subst}
use retail_order_sync_hub.Base.{ℕ, ◌<◌, string_eq, List, ◌≡◌, refl, ap, inl, inr, arith}
use retail_order_sync_hub.Config.{Settings}
use retail_order_sync_hub.Services.{Runtime, Publisher, Random, IsUniform, outside}
use retail_order_sync_hub.Odoo.{Odoo}
use retail_order_sync_hub.Model.{OutboxEntry, Status}
use retail_order_sync_hub.World.{World}
use retail_order_sync_hub.World.Keeps.{
  Keeps-outside, Keeps-Preserves, Preserves, Preserves-pure, Preserves-bind,
}
use retail_order_sync_hub.Exec.{Result, Result-cases, Exec}
use retail_order_sync_hub.Adapters.Dto.{PushResult}
use retail_order_sync_hub.Outbox.Queue.{queue, AllKeepTables, AllKeepTables-AllKeepOutbox}
use retail_order_sync_hub.Outbox.Processor.{Outcome, Adapters, process_pending}
use retail_order_sync_hub.Outbox.Processor.Entry.{Transition, succeeds, retries, dies}
use retail_order_sync_hub.Outbox.Processor.Batch.{process_pending_raises}
use retail_order_sync_hub.Outbox.Processor.Steps.{RowStep, untouched, moved}
use retail_order_sync_hub.Outbox.Processor.Cycle.{process_pending_cycle, batch_of}
use retail_order_sync_hub.Outbox.Invariant.{Agrees, IsConsistent, IsValid}
use retail_order_sync_hub.Outbox.Worker.{run_once}
use retail_order_sync_hub.Outbox.Processor.Others.{Keeps-process_pending}
use retail_order_sync_hub.Outbox.Invariant.Inserted.{Preserves-enqueue}
use retail_order_sync_hub.Outbox.Invariant.Rewritten.{
  Rewrites, Rewrites-refl, Pointwise-mono, IsValid-Rewrites,
}

-- What a transition makes of a pending row that is consistent.
module _ (max now : ℕ) where
  Transition-IsConsistent :
      (row row' : OutboxEntry) (r : Result PushResult) (o : Outcome)
      → Transition max now row r row' o
      → Agrees max Status.pending row.attempts row.error_log
      → IsConsistent max row'
  Transition-IsConsistent row row' r o (succeeds p e eq eo) h = rw eq (h.0, refl)
  Transition-IsConsistent row row' r o (retries x delay e lt lo hi eq eo) h =
      rw eq (lt, ((λ z. absurd (omega (arith, z))), (λ z. absurd (cc))))
  Transition-IsConsistent row row' r o (dies x e le eq eo) h =
      rw eq (omega (arith, h.0, le), (λ z. cc))

  Transition-keys :
      (row row' : OutboxEntry) (r : Result PushResult) (o : Outcome)
      → Transition max now row r row' o
      → (row'.id ≡ row.id)
        × (row'.aggregate_id ≡ row.aggregate_id)
        × (row'.target_adapter ≡ row.target_adapter)
  Transition-keys row row' r o (succeeds p e eq eo) = rw eq (refl, refl, refl)
  Transition-keys row row' r o (retries x delay e lt lo hi eq eo) = rw eq (refl, refl, refl)
  Transition-keys row row' r o (dies x e le eq eo) = rw eq (refl, refl, refl)

  RowStep-Rewrites :
      (batch : List OutboxEntry) (x y : OutboxEntry) → RowStep max now batch x y → Rewrites max x y
  RowStep-Rewrites batch x y (untouched out eq) = rw eq (Rewrites-refl max x)
  RowStep-Rewrites batch x y (moved r row o at i due t eq) =
      let (id, aggregate, target) = Transition-keys x row r o t in
      rw eq (record {
        same_id = id;
        same_aggregate = aggregate;
        same_target = target;
        consistent = λ h.
            Transition-IsConsistent x row r o t
              (subst (λ s. Agrees max s x.attempts x.error_log) due.pending h);
      })

module _ {E : Type 0} (rt : Runtime) (random : Random E) (publisher : Publisher E)
    (settings : Settings) (adapters : Adapters E) (uniform : IsUniform random)
    (keeps : AllKeepTables adapters) where
  abbrev Valid : World E → Type 0
  Valid w = IsValid settings.outbox_max_attempts (queue w)

  pub Preserves-process_pending :
      (now batch_size : ℕ)
      → Preserves Valid (process_pending rt random publisher settings adapters now batch_size)
  Preserves-process_pending now batch_size = record {
    holds = λ w v.
        let run = process_pending rt random publisher settings adapters now batch_size w in
        let drawn =
          ap (λ q. q.0.outbox)
            ((Keeps-process_pending rt random publisher settings adapters now keeps batch_size).same
              w) in
        let keeps' = AllKeepTables-AllKeepOutbox adapters keeps in
        elim (Result-cases run.0) [
          | inl (outcomes, e) ↦
              let (many, few, table) =
                process_pending_cycle rt random publisher settings adapters now uniform batch_size w
                  v.unique_ids keeps' e in
              rw drawn (
                IsValid-Rewrites settings.outbox_max_attempts w.db.outbox run.1.db.outbox
                  w.seq.outbox
                  (Pointwise-mono
                    (RowStep settings.outbox_max_attempts now
                      (batch_of rt random publisher settings adapters now uniform batch_size w))
                    (Rewrites settings.outbox_max_attempts) w.db.outbox run.1.db.outbox
                    (RowStep-Rewrites settings.outbox_max_attempts now
                      (batch_of rt random publisher settings adapters now uniform batch_size w))
                    table)
                  v)
          | inr (x, e) ↦
              rw
                (
                  drawn,
                  process_pending_raises rt random publisher settings adapters now batch_size w
                      keeps' e,
                )
                v
        ];
  }

  module _ (odoo : Odoo E) (positive : 0 < settings.outbox_max_attempts) where
    Preserves-outside : {A : Type 0} (m : Exec E A) → Preserves Valid (outside m)
    Preserves-outside m =
        Keeps-Preserves queue (IsValid settings.outbox_max_attempts) (outside m)
          (Keeps-outside queue m (λ w e. refl))

    -- A round of the worker, whether it ends or raises, preserves the invariant of the outbox.
    pub Preserves-run_once : Preserves Valid (run_once rt random publisher settings odoo adapters)
    unfolding run_once
    Preserves-run_once = Preserves-bind Valid _ _ (Preserves-outside _) λ orders.
        Preserves-bind Valid _ _ (Preserves-enqueue settings.outbox_max_attempts positive orders _)
          λ added.
            Preserves-bind Valid _ _
              (record { holds = λ w. (Preserves-process_pending w.clock 50).holds w })
              λ outcomes. Preserves-pure Valid tt
