-- ===== src/Outbox/Tests.antt =====
-- Concrete runs of the outbox: the enqueuing of one order, and the cycles of the worker.
use retail_order_sync_hub.Base.{
  false, arith, ℕ, ◌+◌, ◌≤◌, String, some, [], ◌∷◌, ◌≡◌, refl, length, order_by,
}
use retail_order_sync_hub.Config.{default_settings}
use retail_order_sync_hub.Exec.{adapter_error, ok, err, other, exc_text, Exc, ◌>>=◌}
use retail_order_sync_hub.Model.{OutboxEntry}
use retail_order_sync_hub.World.{World}
use retail_order_sync_hub.Adapters.Dto.{order_from_payload, model_dump}
use retail_order_sync_hub.Adapters.Dto.RoundTrip.{IsValid, order_from_payload-model_dump}
use retail_order_sync_hub.Services.{outside}
use retail_order_sync_hub.Fixtures.{
  runtime, runtime-ReadsFields, publisher, random, random-IsUniform, good_adapter, bad_adapter,
  order, world, entry_row, outbox_world,
}
use retail_order_sync_hub.Outbox.Enqueue.{enqueue_orders}
use retail_order_sync_hub.Outbox.Enqueue.Growth.{Grows, enqueue_orders-Grows}
use retail_order_sync_hub.Outbox.Enqueue.Idempotence.{enqueue_orders_again}
use retail_order_sync_hub.Outbox.Processor.{
  Outcome, Adapters, process_entry, process_pending, process_rows, attempt, adapter_of, base_delay,
  write_back, due_rows, is_due,
}
use retail_order_sync_hub.Outbox.Processor.Entry.{Transition, process_entry-Transition, dead_row}
use retail_order_sync_hub.Outbox.Processor.Retries.{FailsTo, Failures, Fate, Failures-Fate}
use retail_order_sync_hub.Outbox.Processor.Letters.{
  process_entry_published, publish_letter, push_result, pushed_world,
}
use retail_order_sync_hub.Outbox.Processor.Batch.{process_pending_raises}
use retail_order_sync_hub.Outbox.Processor.Steps.{Pointwise, RowStep}
use retail_order_sync_hub.Outbox.Processor.Cycle.{process_pending_cycle, batch_of}

abbrev two_adapters : Adapters ℕ
two_adapters = ("good", good_adapter) ∷ ("bad", bad_adapter) ∷ []

order-IsValid : IsValid order
order-IsValid = record { not_empty = λ e. cc; positive = (refl, tt) }

order_from_payload-model_dump_example : order_from_payload runtime (model_dump order) ≡ ok order
order_from_payload-model_dump_example =
    order_from_payload-model_dump runtime runtime-ReadsFields order order-IsValid

enqueue_orders-Grows_example :
    Grows (world 0) 0 (enqueue_orders (order ∷ []) ("paris" ∷ []) (world 0))
enqueue_orders-Grows_example = enqueue_orders-Grows (order ∷ []) ("paris" ∷ []) (world 0)

enqueue_orders_again_example :
    let w = (enqueue_orders (order ∷ []) ("paris" ∷ "paris" ∷ []) (world 0)).1 in
    ((enqueue_orders (order ∷ []) ("paris" ∷ "paris" ∷ []) w).0 ≡ ok 0)
    × ((enqueue_orders (order ∷ []) ("paris" ∷ "paris" ∷ []) w).1.db ≡ w.db)
enqueue_orders_again_example = enqueue_orders_again (order ∷ []) ("paris" ∷ "paris" ∷ []) (world 0)

-- A fourth failure is retried after 16 seconds and a jitter of 4 at most.
abbrev retried : OutboxEntry
retried = record (entry_row 1 "bad" 3) {
  attempts = 4;
  error_log = some "boom";
  next_attempt_at = 20001000;
}

entry_retry :
    (process_entry runtime random publisher default_settings two_adapters 1000
      (entry_row 1 "bad" 3)
      (world 0)).0
    ≡ ok (retried, Outcome.retry)
unfolding process_entry adapter_of ◌>>=◌ order_from_payload base_delay exc_text
entry_retry = refl

process_entry-Transition_example :
    Transition 5 1000
      (entry_row 1 "bad" 3)
      (attempt runtime random publisher default_settings two_adapters 1000
        (entry_row 1 "bad" 3)
        (world 0)).0
      retried
      Outcome.retry
process_entry-Transition_example =
    process_entry-Transition runtime random publisher default_settings two_adapters 1000
      random-IsUniform (entry_row 1 "bad" 3) (world 0) entry_retry

-- The last failure of an entry is published, and the entry becomes a dead letter.
dead : OutboxEntry
dead = dead_row (entry_row 1 "bad" 4) "boom"

entry_dead :
    (process_entry runtime random publisher default_settings two_adapters 1000
      (entry_row 1 "bad" 4)
      (world 0)).0
    ≡ ok (dead, Outcome.dlq)
unfolding process_entry adapter_of ◌>>=◌ order_from_payload outside dead exc_text
entry_dead = refl

process_entry_published_example :
    (e : Exc) × (push_result runtime random publisher default_settings two_adapters 1000
        (entry_row 1 "bad" 4)
        (world 0)
      ≡ err e)
    × (5 ≤ 4 + 1)
    × ((id : String) × (publish_letter runtime random publisher default_settings two_adapters 1000
            (dead_row (entry_row 1 "bad" 4) (exc_text e))
            (exc_text e)
            (pushed_world runtime random publisher default_settings two_adapters 1000
              (entry_row 1 "bad" 4)
              (world 0)).env
          ≡ (
            ok id,
            (process_entry runtime random publisher default_settings two_adapters 1000
                (entry_row 1 "bad" 4)
                (world 0)).1.env,
          )))
process_entry_published_example =
    process_entry_published runtime random publisher default_settings two_adapters 1000
      (entry_row 1 "bad" 4) (world 0) entry_dead

-- A batch of three: the first is pushed, the second dies with the broker down.
abbrev lost_world : World ℕ
lost_world = outbox_world 2 (entry_row 1 "good" 0 ∷ entry_row 2 "bad" 4 ∷ [])

lost_batch :
    (process_pending runtime random publisher default_settings two_adapters 1000 10 lost_world).0
    ≡ err (other "broker down")
unfolding process_pending process_rows process_entry adapter_of ◌>>=◌ order_from_payload outside
    due_rows is_due order_by
lost_batch = refl

process_pending_raises_example :
    (process_pending runtime random publisher default_settings two_adapters 1000 10
      lost_world).1.db.outbox
    ≡ lost_world.db.outbox
process_pending_raises_example =
    process_pending_raises runtime random publisher default_settings two_adapters 1000 10 lost_world
      ((λ o w. refl), ((λ o w. refl), tt)) lost_batch

abbrev cycle_world : World ℕ
cycle_world = outbox_world 0 (entry_row 2 "bad" 4 ∷ entry_row 1 "good" 0 ∷ [])

cycle_outcomes :
    (process_pending runtime random publisher default_settings two_adapters 1000 10 cycle_world).0
    ≡ ok ((1, Outcome.done) ∷ (2, Outcome.dlq) ∷ [])
unfolding process_pending process_rows process_entry adapter_of ◌>>=◌ order_from_payload outside
    due_rows is_due write_back order_by
cycle_outcomes = refl

process_pending_cycle_example :
    (2
      ≡ length (
          batch_of runtime random publisher default_settings two_adapters 1000 random-IsUniform 10
            cycle_world))
    × (2 ≤ 10)
    × Pointwise
        (RowStep 5 1000 (
          batch_of runtime random publisher default_settings two_adapters 1000 random-IsUniform 10
            cycle_world))
        cycle_world.db.outbox
        (process_pending runtime random publisher default_settings two_adapters 1000 10
          cycle_world).1.db.outbox
process_pending_cycle_example =
    process_pending_cycle runtime random publisher default_settings two_adapters 1000
      random-IsUniform 10 cycle_world (((λ e. cc), tt), (tt, tt))
      ((λ o w. refl), ((λ o w. refl), tt)) cycle_outcomes

-- The entry with three attempts fails twice: it waits once, and then it dies.
fourth_failure :
    FailsTo runtime random publisher default_settings two_adapters random-IsUniform
      (entry_row 1 "bad" 3)
      retried
      Outcome.retry
unfolding attempt adapter_of order_from_payload ◌>>=◌
fourth_failure = record {
  now = 1000;
  at = world 0;
  error = adapter_error "boom" false;
  fails = refl;
  gives = entry_retry;
}

abbrev dead_after_retry : OutboxEntry
dead_after_retry = dead_row retried "boom"

retried_dead :
    (process_entry runtime random publisher default_settings two_adapters 30000000 retried
      (world 0)).0
    ≡ ok (dead_after_retry, Outcome.dlq)
unfolding process_entry adapter_of ◌>>=◌ order_from_payload outside exc_text
retried_dead = refl

fifth_failure :
    FailsTo runtime random publisher default_settings two_adapters random-IsUniform retried
      dead_after_retry Outcome.dlq
unfolding attempt adapter_of order_from_payload ◌>>=◌
fifth_failure = record {
  now = 30000000;
  at = world 0;
  error = adapter_error "boom" false;
  fails = refl;
  gives = retried_dead;
}

Failures-Fate_example :
    Fate runtime random publisher default_settings two_adapters random-IsUniform
      (3 + 2)
      dead_after_retry
      Outcome.dlq
Failures-Fate_example =
    Failures-Fate runtime random publisher default_settings two_adapters random-IsUniform
      (entry_row 1 "bad" 3) dead_after_retry 2 Outcome.dlq (omega arith)
      (Failures.next 1 retried dead_after_retry Outcome.dlq
        (Failures.first retried Outcome.retry fourth_failure) fifth_failure)
