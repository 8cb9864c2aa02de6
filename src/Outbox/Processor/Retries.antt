-- ===== src/Outbox/Processor/Retries.antt =====
-- An entry that keeps failing: how many retries it gets, and when it dies.
use mathlib.Core.Path.{subst}
use retail_order_sync_hub.Base.{ℕ, suc, ◌+◌, ◌<◌, ◌≡◌, ap, arith}
use retail_order_sync_hub.Config.{Settings}
use retail_order_sync_hub.Services.{Runtime, Publisher, Random, IsUniform}
use retail_order_sync_hub.Model.{OutboxEntry, Status}
use retail_order_sync_hub.World.{World}
use retail_order_sync_hub.Exec.{Exc, Result, ok, err}
use retail_order_sync_hub.Adapters.Dto.{PushResult}
use retail_order_sync_hub.Outbox.Processor.{Outcome, Adapters, attempt, process_entry}
use retail_order_sync_hub.Outbox.Processor.Entry.{
  Transition, succeeds, retries, dies, process_entry-Transition,
}

module _ {E : Type 0} (rt : Runtime) (random : Random E) (publisher : Publisher E)
    (settings : Settings) (adapters : Adapters E) (uniform : IsUniform random) where
  -- A processing of the row at some time in some world, whose push fails.
  pub record FailsTo (row row' : OutboxEntry) (o : Outcome) : Type 0 where
    pub now : ℕ
    pub at : World E
    pub error : Exc
    pub fails : (attempt rt random publisher settings adapters now row at).0 ≡ err error
    pub gives : (process_entry rt random publisher settings adapters now row at).0 ≡ ok (row', o)

  -- So many failures in a row, with a retry after each but the last, and the last one's outcome.
  pub data Failures (row : OutboxEntry) : ℕ → OutboxEntry → Outcome → Type 0 where
    first : (row' : OutboxEntry) (o : Outcome) → FailsTo row row' o → Failures row 1 row' o
    next :
        (n : ℕ) (row' row'' : OutboxEntry) (o : Outcome)
        → Failures row n row' Outcome.retry
        → FailsTo row' row'' o
        → Failures row (suc n) row'' o

  -- The entry waits for a retry below the limit of attempts, or it has died exactly at the limit.
  pub data Fate (attempts : ℕ) (row' : OutboxEntry) (o : Outcome) : Type 0 where
    waits :
        o ≡ Outcome.retry
        → row'.status ≡ Status.pending
        → row'.attempts ≡ attempts
        → attempts < settings.outbox_max_attempts
        → Fate attempts row' o
    died :
        o ≡ Outcome.dlq
        → row'.status ≡ Status.dlq
        → row'.attempts ≡ attempts
        → attempts ≡ settings.outbox_max_attempts
        → Fate attempts row' o

  step_below_limit :
      (now : ℕ) (row row' : OutboxEntry) (r : Result PushResult) (o : Outcome) (error : Exc)
      → r ≡ err error
      → row.attempts < settings.outbox_max_attempts
      → Transition settings.outbox_max_attempts now row r row' o
      → Fate (row.attempts + 1) row' o
  step_below_limit now row row' r o error failed below (succeeds p e eq eo) = absurd (cc)
  step_below_limit now row row' r o error failed below (retries x delay e lt lo hi eq eo) =
      Fate.waits eo (ap (λ (s : OutboxEntry). s.status) eq)
        (ap (λ (s : OutboxEntry). s.attempts) eq) lt
  step_below_limit now row row' r o error failed below (dies x e le eq eo) =
      Fate.died eo (ap (λ (s : OutboxEntry). s.status) eq) (ap (λ (s : OutboxEntry). s.attempts) eq)
        (omega arith)

  failure_below_limit :
      (row row' : OutboxEntry) (o : Outcome)
      → row.attempts < settings.outbox_max_attempts
      → FailsTo row row' o
      → Fate (row.attempts + 1) row' o
  failure_below_limit row row' o below f =
      step_below_limit f.now row row' _ o f.error f.fails below (
        process_entry-Transition rt random publisher settings adapters f.now uniform row f.at
          f.gives)

  retried_below :
      (attempts : ℕ) (row' : OutboxEntry)
      → Fate attempts row' Outcome.retry
      → (row'.attempts ≡ attempts) × (attempts < settings.outbox_max_attempts)
  retried_below attempts row' (waits eo s a lt) = (a, lt)
  retried_below attempts row' (died eo s a e) = absurd (cc)

  -- An entry below the limit of attempts whose pushes all fail, and whose cycles return: after `n`
  -- failures it waits for a retry with `n` attempts more, which are below the limit, or it is
  -- dead-lettered and its attempts have reached the limit exactly. The jitter is within its bound.
  pub Failures-Fate :
      (row row' : OutboxEntry) (n : ℕ) (o : Outcome)
      → row.attempts < settings.outbox_max_attempts
      → Failures row n row' o
      → Fate (row.attempts + n) row' o
  Failures-Fate row row' n o below (first r p f) = failure_below_limit row row' o below f
  Failures-Fate row row' n o below (next m mid last p before f) =
      let (a, lt) =
        retried_below (row.attempts + m) mid (Failures-Fate row mid m Outcome.retry below before) in
      let e : mid.attempts + 1 ≡ row.attempts + suc m = omega (arith, a) in
      let below' : mid.attempts < settings.outbox_max_attempts = omega (arith, a, lt) in
      subst (λ k. Fate k last p) e (failure_below_limit mid last p below' f)
