-- ===== src/Outbox/Processor/Entry.antt =====
-- One entry of the outbox: which row and outcome `process_entry` gives for which result of the push.
use retail_order_sync_hub.Base.{
  ℕ, ◌+◌, ◌*◌, ◌/◌, ◌≤◌, ◌<◌, String, true, false, none, some, ◌≡◌, refl, ap, sym, ◌∙◌, inl, inr,
  leb, leb→le, Bool-cases, arith,
}
use retail_order_sync_hub.Config.{Settings}
use retail_order_sync_hub.Services.{Runtime, Publisher, Random, IsUniform, outside}
use retail_order_sync_hub.Model.{OutboxEntry, Status}
use retail_order_sync_hub.World.{World}
use retail_order_sync_hub.Exec.{Exc, exc_text, Result, ok, err, ok-injective, ◌>>=◌}
use retail_order_sync_hub.Adapters.Dto.{PushResult}
use retail_order_sync_hub.Outbox.Processor.{
  Outcome, Adapters, second, base_delay, attempt, failed, settle, process_entry, to_dlq, to_retry,
}

-- The rows that the three outcomes leave.
abbrev pub done_row : OutboxEntry → OutboxEntry
done_row row = record row { status = Status.done; error_log = none }

abbrev pub failed_row : OutboxEntry → String → OutboxEntry
failed_row row error = record row { attempts = row.attempts + 1; error_log = some error }

abbrev pub retry_row : OutboxEntry → String → ℕ → OutboxEntry
retry_row row error at = record row {
  attempts = row.attempts + 1;
  error_log = some error;
  status = Status.pending;
  next_attempt_at = at;
}

abbrev pub dead_row : OutboxEntry → String → OutboxEntry
dead_row row error = record row {
  attempts = row.attempts + 1;
  error_log = some error;
  status = Status.dlq;
}

-- What one processing may do to a row, by the result of the push: success is final; a failure below
-- the limit is retried after the backoff of the attempts made, and a quarter of it at most; a
-- failure that reaches the limit is dead-lettered.
pub data Transition (max now : ℕ) (row : OutboxEntry) (r : Result PushResult) (row' : OutboxEntry)
    (o : Outcome) : Type 0 where
  succeeds :
      (p : PushResult)
      → r ≡ ok p
      → row' ≡ done_row row
      → o ≡ Outcome.done
      → Transition max now row r row' o
  retries :
      (e : Exc) (delay : ℕ)
      → r ≡ err e
      → row.attempts + 1 < max
      → base_delay (row.attempts + 1) * second ≤ delay
      → delay ≤ base_delay (row.attempts + 1) * second + base_delay (row.attempts + 1) * second / 4
      → row' ≡ retry_row row (exc_text e) (now + delay)
      → o ≡ Outcome.retry
      → Transition max now row r row' o
  dies :
      (e : Exc)
      → r ≡ err e
      → max ≤ row.attempts + 1
      → row' ≡ dead_row row (exc_text e)
      → o ≡ Outcome.dlq
      → Transition max now row r row' o

module _ {E : Type 0} (rt : Runtime) (random : Random E) (publisher : Publisher E)
    (settings : Settings) (adapters : Adapters E) (now : ℕ) (uniform : IsUniform random) where
  abbrev max : ℕ
  max = settings.outbox_max_attempts

  -- The delay that a row gets after its `n`-th failure, in a world.
  abbrev delay_after : ℕ → World E → ℕ
  delay_after n w = let base = base_delay n * second in base + (random.uniform (base / 4) w.env).0

  to_retry_lem :
      (row : OutboxEntry) (w : World E)
      → (to_retry rt random publisher settings adapters now row w).0
        ≡ ok (
          record row {
            status = Status.pending;
            next_attempt_at = now + delay_after row.attempts w;
          },
          Outcome.retry,
        )
  unfolding to_retry ◌>>=◌
  to_retry_lem row w = refl

  to_dlq_ok :
      (row : OutboxEntry) (error : String) (w : World E) {x : OutboxEntry × Outcome}
      → (to_dlq rt random publisher settings adapters now row error w).0 ≡ ok x
      → x ≡ (row, Outcome.dlq)
  unfolding to_dlq ◌>>=◌ outside
  to_dlq_ok row error w h = ground arith

  failed_last :
      (row : OutboxEntry) (error : String) (w : World E)
      → leb max (row.attempts + 1) ≡ true
      → failed rt random publisher settings adapters now row error w
        ≡ to_dlq rt random publisher settings adapters now (dead_row row error) error w
  unfolding failed
  failed_last row error w h = rw h

  failed_more :
      (row : OutboxEntry) (error : String) (w : World E)
      → leb max (row.attempts + 1) ≡ false
      → failed rt random publisher settings adapters now row error w
        ≡ to_retry rt random publisher settings adapters now (failed_row row error) w
  unfolding failed
  failed_more row error w h = rw h

  settle_ok :
      (row : OutboxEntry) (p : PushResult) (w : World E)
      → (settle rt random publisher settings adapters now row (ok p) w).0
        ≡ ok (done_row row, Outcome.done)
  unfolding settle ◌>>=◌
  settle_ok row p w = refl

  failed-Transition :
      (row : OutboxEntry) (e : Exc) (w : World E) {row' : OutboxEntry} {o : Outcome}
      → (failed rt random publisher settings adapters now row (exc_text e) w).0 ≡ ok (row', o)
      → Transition max now row (err e) row' o
  failed-Transition row e w {row'} {o} h = elim (Bool-cases (leb max (row.attempts + 1))) [
    | inl last ↦
        let row₁ = dead_row row (exc_text e) in
        let x = to_dlq_ok row₁ (exc_text e) w {x = (row', o)} (
          sym (
            ap (λ (r : Result (OutboxEntry × Outcome) × World E). r.0)
              (failed_last row (exc_text e) w last))
          ∙ h) in
        Transition.dies e refl (leb→le _ _ last) (ap (λ (p : OutboxEntry × Outcome). p.0) x)
          (ap (λ (p : OutboxEntry × Outcome). p.1) x)
    | inr more ↦
        let row₁ = failed_row row (exc_text e) in
        let x = ok-injective (
          sym (to_retry_lem row₁ w)
          ∙ sym (
              ap (λ (r : Result (OutboxEntry × Outcome) × World E). r.0)
                (failed_more row (exc_text e) w more))
          ∙ h) in
        let jitter = uniform.within (base_delay (row.attempts + 1) * second / 4) w.env in
        Transition.retries e (delay_after (row.attempts + 1) w) refl (ground arith) (omega arith)
          (omega arith) (sym (ap (λ (p : OutboxEntry × Outcome). p.0) x))
          (sym (ap (λ (p : OutboxEntry × Outcome). p.1) x))
  ]

  settle-Transition :
      (row : OutboxEntry) (r : Result PushResult) (w : World E) {row' : OutboxEntry} {o : Outcome}
      → (settle rt random publisher settings adapters now row r w).0 ≡ ok (row', o)
      → Transition max now row r row' o
  settle-Transition row (ok p) w h =
      let x = ok-injective (sym (settle_ok row p w) ∙ h) in
      Transition.succeeds p refl (sym (ap (λ (p : OutboxEntry × Outcome). p.0) x))
        (sym (ap (λ (p : OutboxEntry × Outcome). p.1) x))
  settle-Transition row (err e) w h = failed-Transition row e w (unfold settle in h)

  -- Whenever an entry is processed without an exception, the row and the outcome are those of the
  -- result of its push: done on success, a retry after the backoff below the limit of attempts, and
  -- the dead letters from the limit on. The jitter is within its bound.
  pub process_entry-Transition :
      (row : OutboxEntry) (w : World E) {row' : OutboxEntry} {o : Outcome}
      → (process_entry rt random publisher settings adapters now row w).0 ≡ ok (row', o)
      → Transition max now row (attempt rt random publisher settings adapters now row w).0 row' o
  unfolding process_entry
  process_entry-Transition row w h = settle-Transition row _ _ h
