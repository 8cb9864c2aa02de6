-- ===== src/Outbox/Processor/Others.antt =====
-- A cycle of the outbox worker leaves the other tables and the sequences alone.
use retail_order_sync_hub.Base.{
  ℕ, String, ◌==◌, string_eq, List, [], ◌∷◌, ◌≡◌, refl, ap, ◌∙◌, inl, inr, Bool-cases, leb, ◌+◌,
  arith,
}
use retail_order_sync_hub.Config.{Settings}
use retail_order_sync_hub.Services.{Runtime, Publisher, Random, outside}
use retail_order_sync_hub.Model.{OutboxEntry}
use retail_order_sync_hub.World.{World}
use retail_order_sync_hub.World.Keeps.{
  Keeps, Keeps-bind, Keeps-lift, Keeps-raise, Keeps-gets, Keeps-pure,
}
use retail_order_sync_hub.Exec.{exc_text, Result, ok, err, ◌>>=◌}
use retail_order_sync_hub.Adapters.Dto.{PushResult, order_from_payload}
use retail_order_sync_hub.Outbox.Queue.{others, AllKeepTables}
use retail_order_sync_hub.Outbox.Processor.{
  Adapters, adapter_of, push_with, attempt, to_dlq, to_retry, failed, settle, process_entry,
  process_rows, process_pending, write_back,
}
use retail_order_sync_hub.Outbox.Processor.Entry.{dead_row, failed_row}

module _ {E : Type 0} (rt : Runtime) (random : Random E) (publisher : Publisher E)
    (settings : Settings) (adapters : Adapters E) (now : ℕ) where
  Keeps-push_with :
      (row : OutboxEntry) (name : String) (found : Adapters E)
      → AllKeepTables found
      → Keeps others
          (push_with rt random publisher settings adapters now row (adapter_of name found))
  unfolding adapter_of
  Keeps-push_with row name [] keeps = unfold push_with in Keeps-raise others _
  Keeps-push_with row name ((k, a) ∷ rest) (keep, keeps) = elim (Bool-cases (k == name)) [
    | inl same ↦ rw same (
        unfold push_with in
        Keeps-bind others _ _ (Keeps-lift others (order_from_payload rt row.payload))
          (λ order. record { same = λ w. ap (λ q. (q.1, q.2, q.3, q.4)) ((keep order).same w) }))
    | inr other ↦ rw other (Keeps-push_with row name rest keeps)
  ]

  others-to_dlq :
      (row : OutboxEntry) (error : String) (w : World E)
      → others (to_dlq rt random publisher settings adapters now row error w).1 ≡ others w
  unfolding to_dlq ◌>>=◌ outside
  others-to_dlq row error w = ground arith

  others-to_retry :
      (row : OutboxEntry) (w : World E)
      → others (to_retry rt random publisher settings adapters now row w).1 ≡ others w
  unfolding to_retry ◌>>=◌
  others-to_retry row w = refl

  others-failed :
      (row : OutboxEntry) (error : String) (w : World E)
      → others (failed rt random publisher settings adapters now row error w).1 ≡ others w
  unfolding failed
  others-failed row error w =
      elim (Bool-cases (leb settings.outbox_max_attempts (row.attempts + 1))) [
        | inl last ↦ rw last (others-to_dlq (dead_row row error) error w)
        | inr more ↦ rw more (others-to_retry (failed_row row error) w)
      ]

  others-settle :
      (row : OutboxEntry) (r : Result PushResult) (w : World E)
      → others (settle rt random publisher settings adapters now row r w).1 ≡ others w
  others-settle row (ok p) w = unfold settle in unfold ◌>>=◌ in refl
  others-settle row (err e) w = unfold settle in others-failed row (exc_text e) w

  module _ (keeps : AllKeepTables adapters) where
    Keeps-entry :
        (row : OutboxEntry)
        → Keeps others (process_entry rt random publisher settings adapters now row)
    unfolding process_entry
    Keeps-entry row = record {
      same = λ w.
          others-settle row _ _
          ∙ unfold attempt in (Keeps-push_with row row.target_adapter adapters keeps).same w;
    }

    Keeps-rows :
        (rows : List OutboxEntry)
        → Keeps others (process_rows rt random publisher settings adapters now rows)
    unfolding process_rows
    Keeps-rows [] = Keeps-pure others []
    Keeps-rows (row ∷ rows) =
        Keeps-bind others _ _ (Keeps-entry row)
          λ result. Keeps-bind others _ _ (Keeps-rows rows) λ results. Keeps-pure others _

    pub Keeps-process_pending :
        (batch_size : ℕ)
        → Keeps others (process_pending rt random publisher settings adapters now batch_size)
    unfolding process_pending write_back
    Keeps-process_pending batch_size =
        Keeps-bind others _ _ (Keeps-gets others _)
          λ rows. Keeps-bind others _ _ (Keeps-rows rows) λ results. record { same = λ w. refl }
