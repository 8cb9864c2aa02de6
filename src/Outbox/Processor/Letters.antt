-- ===== src/Outbox/Processor/Letters.antt =====
-- The dead letters of the outbox worker: when one is published, and what a refusal of it does.
use retail_order_sync_hub.Base.{
  ℕ, ◌+◌, ◌≤◌, String, true, false, [], ◌∷◌, ◌≡◌, refl, sym, ap, ◌∙◌, inl, inr, leb, leb→le,
  Bool-cases, arith, pos,
}
use retail_order_sync_hub.Json.{int, str, dict}
use retail_order_sync_hub.Config.{Settings}
use retail_order_sync_hub.Services.{Runtime, Publisher, Random, outside}
use retail_order_sync_hub.Model.{OutboxEntry}
use retail_order_sync_hub.World.{World}
use retail_order_sync_hub.Exec.{Exc, exc_text, Result, ok, err, Result-cases, ◌>>=◌}
use retail_order_sync_hub.Adapters.Dto.{PushResult}
use retail_order_sync_hub.Outbox.Processor.{
  Outcome, Adapters, attempt, failed, settle, process_entry, to_dlq, to_retry,
}
use retail_order_sync_hub.Outbox.Processor.Entry.{dead_row}

module _ {E : Type 0} (rt : Runtime) (random : Random E) (publisher : Publisher E)
    (settings : Settings) (adapters : Adapters E) (now : ℕ) where
  -- The publication of a row's dead letter, with its body written out.
  abbrev pub publish_letter : OutboxEntry → String → E → Result String × E
  publish_letter row error =
      publisher.publish settings.pubsub_topic_sync_dlq
        (rt.dumps (
          dict (
            ("outbox_id", int (pos row.id))
            ∷ ("aggregate_id", str row.aggregate_id)
            ∷ ("target_adapter", str row.target_adapter)
            ∷ ("attempts", int (pos row.attempts))
            ∷ ("error", str error)
            ∷ ("payload", row.payload)
            ∷ [])))
        (("aggregate_id", row.aggregate_id) ∷ ("target_adapter", row.target_adapter) ∷ [])

  env-to_dlq :
      (row : OutboxEntry) (error : String) (w : World E)
      → (to_dlq rt random publisher settings adapters now row error w).1.env
        ≡ (publish_letter row error w.env).1
  unfolding to_dlq ◌>>=◌ outside
  env-to_dlq row error w = ground arith

  to_dlq_published :
      (row : OutboxEntry) (error : String) (w : World E) {x : OutboxEntry × Outcome}
      → (to_dlq rt random publisher settings adapters now row error w).0 ≡ ok x
      → (id : String) × (publish_letter row error w.env
          ≡ (ok id, (to_dlq rt random publisher settings adapters now row error w).1.env))
  unfolding to_dlq ◌>>=◌ outside
  to_dlq_published row error w h = elim (Result-cases (publish_letter row error w.env).0) [
    | inl (id, e) ↦ (
      id,
      ap (λ (r : Result String). (r, (publish_letter row error w.env).1)) e
          ∙ ap (λ (env : E). (ok id, env)) (sym (env-to_dlq row error w)),
    )
    | inr (e, f) ↦ absurd (ground arith)
  ]

  to_dlq_raises :
      (row : OutboxEntry) (error : String) (w : World E) {x : Exc}
      → (to_dlq rt random publisher settings adapters now row error w).0 ≡ err x
      → (publish_letter row error w.env).0 ≡ err x
  unfolding to_dlq ◌>>=◌ outside
  to_dlq_raises row error w h = ground arith

  db-to_dlq :
      (row : OutboxEntry) (error : String) (w : World E)
      → (to_dlq rt random publisher settings adapters now row error w).1.db ≡ w.db
  unfolding to_dlq ◌>>=◌ outside
  db-to_dlq row error w = ground arith

  db-settle :
      (row : OutboxEntry) (r : Result PushResult) (w : World E)
      → (settle rt random publisher settings adapters now row r w).1.db ≡ w.db
  unfolding settle to_dlq to_retry ◌>>=◌ outside
  db-settle row r w = ground arith

  failed_last :
      (row : OutboxEntry) (error : String) (w : World E)
      → leb settings.outbox_max_attempts (row.attempts + 1) ≡ true
      → failed rt random publisher settings adapters now row error w
        ≡ to_dlq rt random publisher settings adapters now (dead_row row error) error w
  unfolding failed
  failed_last row error w h = rw h

  failed_retries :
      (row : OutboxEntry) (error : String) (w : World E)
      → leb settings.outbox_max_attempts (row.attempts + 1) ≡ false
      → (row' : OutboxEntry) × ((failed rt random publisher settings adapters now row error w).0
          ≡ ok (row', Outcome.retry))
  unfolding failed to_retry ◌>>=◌
  failed_retries row error w h = rw h (_, refl)

  settle_published :
      (row : OutboxEntry) (r : Result PushResult) (w : World E) {row' : OutboxEntry}
      → (settle rt random publisher settings adapters now row r w).0 ≡ ok (row', Outcome.dlq)
      → (e : Exc) × (r ≡ err e)
        × (settings.outbox_max_attempts ≤ row.attempts + 1)
        × ((id : String) × (publish_letter (dead_row row (exc_text e)) (exc_text e) w.env
              ≡ (ok id, (settle rt random publisher settings adapters now row r w).1.env)))
  unfolding settle
  settle_published row (ok p) w h = absurd (unfold ◌>>=◌ in cc)
  settle_published row (err e) w h =
      elim (Bool-cases (leb settings.outbox_max_attempts (row.attempts + 1))) [
        | inl last ↦
            let eq = failed_last row (exc_text e) w last in
            (
              e,
              refl,
              leb→le _ _ last,
              rw eq (to_dlq_published (dead_row row (exc_text e)) (exc_text e) w (rw eq at h)),
            )
        | inr more ↦ let (row', eq) = failed_retries row (exc_text e) w more in absurd (cc)
      ]

  settle_raises :
      (row : OutboxEntry) (r : Result PushResult) (w : World E) {x : Exc}
      → (settle rt random publisher settings adapters now row r w).0 ≡ err x
      → (e : Exc) × (r ≡ err e)
        × (settings.outbox_max_attempts ≤ row.attempts + 1)
        × ((publish_letter (dead_row row (exc_text e)) (exc_text e) w.env).0 ≡ err x)
  unfolding settle
  settle_raises row (ok p) w h = absurd (unfold ◌>>=◌ in cc)
  settle_raises row (err e) w h =
      elim (Bool-cases (leb settings.outbox_max_attempts (row.attempts + 1))) [
        | inl last ↦
            let eq = failed_last row (exc_text e) w last in
            (
              e,
              refl,
              leb→le _ _ last,
              to_dlq_raises (dead_row row (exc_text e)) (exc_text e) w (rw eq at h),
            )
        | inr more ↦ let (row', eq) = failed_retries row (exc_text e) w more in absurd (cc)
      ]

  -- The result of the push, and the world that it leaves.
  abbrev pub push_result : OutboxEntry → World E → Result PushResult
  push_result row w = (attempt rt random publisher settings adapters now row w).0

  abbrev pub pushed_world : OutboxEntry → World E → World E
  pushed_world row w = (attempt rt random publisher settings adapters now row w).1

  -- No entry is dead-lettered silently: the outcome is the dead letters only after a failure that
  -- uses up the attempts, and only when the broker has accepted the letter, which holds the row's
  -- id, key, attempts, payload and the error's text.
  pub process_entry_published :
      (row : OutboxEntry) (w : World E) {row' : OutboxEntry}
      → (process_entry rt random publisher settings adapters now row w).0 ≡ ok (row', Outcome.dlq)
      → (e : Exc) × (push_result row w ≡ err e)
        × (settings.outbox_max_attempts ≤ row.attempts + 1)
        × ((id : String) × (publish_letter
                (dead_row row (exc_text e))
                (exc_text e)
                (pushed_world row w).env
              ≡ (ok id, (process_entry rt random publisher settings adapters now row w).1.env)))
  unfolding process_entry
  process_entry_published row w h = settle_published row (push_result row w) (pushed_world row w) h

  -- Processing an entry raises only where the broker refuses a dead letter, and with its exception.
  pub process_entry_raises :
      (row : OutboxEntry) (w : World E) {x : Exc}
      → (process_entry rt random publisher settings adapters now row w).0 ≡ err x
      → (e : Exc) × (push_result row w ≡ err e)
        × (settings.outbox_max_attempts ≤ row.attempts + 1)
        × ((publish_letter (dead_row row (exc_text e)) (exc_text e) (pushed_world row w).env).0
            ≡ err x)
  unfolding process_entry
  process_entry_raises row w h = settle_raises row (push_result row w) (pushed_world row w) h

  -- Of the database, processing an entry changes only what the push itself changes.
  pub db-process_entry :
      (row : OutboxEntry) (w : World E)
      → (process_entry rt random publisher settings adapters now row w).1.db
        ≡ (pushed_world row w).db
  unfolding process_entry
  db-process_entry row w = db-settle row (push_result row w) (pushed_world row w)
