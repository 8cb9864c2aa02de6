-- ===== src/Scripts/Outcomes.antt =====
-- The pending entries of scripts/sync_demo.py: what their first failure makes of them.
use retail_order_sync_hub.Base.{
  ℕ, ◌+◌, ◌-◌, ◌%◌, ◌≤◌, ◌<◌, String, true, false, ◌&&◌, eqb, leb, ◌≡◌, refl, sym, ap, ◌∙◌, inl,
  inr, Bool-cases, if◌then◌else◌, arith,
}
use retail_order_sync_hub.Config.{Settings}
use retail_order_sync_hub.Services.{Runtime, Publisher, Random, IsUniform}
use retail_order_sync_hub.Model.{OutboxEntry}
use retail_order_sync_hub.World.{World}
use retail_order_sync_hub.Exec.{Exc, Result, ok, err, ok-injective, ◌>>=◌, pure, Result-cases}
use retail_order_sync_hub.Adapters.Dto.{PushResult}
use retail_order_sync_hub.Outbox.Processor.{Outcome, Adapters, attempt, process_entry}
use retail_order_sync_hub.Outbox.Processor.Entry.{
  Transition, succeeds, retries, dies, process_entry-Transition,
}
use retail_order_sync_hub.Scripts.{Dice}
use retail_order_sync_hub.Scripts.SyncDemo.{make_pending_entry, start_attempts}

-- What the script announces for the `i`-th entry, where the limit leaves room for a retry.
abbrev pub announced : ℕ → ℕ → Outcome
announced max i = if eqb (i % 2) 0 && leb 2 max then Outcome.retry else Outcome.dlq

made_attempts :
    {E : Type 0} (dice : Dice E) (settings : Settings) (adapter : String)
    (now order_id attempts : ℕ) (e : E) {row : OutboxEntry}
    → (make_pending_entry dice settings adapter now order_id attempts e).0 ≡ ok row
    → row.attempts ≡ attempts
unfolding make_pending_entry ◌>>=◌ pure
made_attempts dice settings adapter now order_id attempts e h =
    elim (Result-cases (dice.randint 1000 9999 e).0) [
      | inr (x, lost) ↦ absurd (cc (rw lost at h))
      | inl (sku, drawn) ↦ elim (Result-cases (dice.randint 1 5 (dice.randint 1000 9999 e).1).0) [
        | inr (x, lost) ↦ absurd (cc (rw lost at (rw drawn at h)))
        | inl (qty, again) ↦
            ap (λ (r : OutboxEntry). r.attempts) (sym (ok-injective (rw again at (rw drawn at h))))
      ]
    ]

start_even : (settings : Settings) (i : ℕ) → eqb (i % 2) 0 ≡ true → start_attempts settings i ≡ 0
unfolding start_attempts
start_even settings i h = rw h refl

start_odd :
    (settings : Settings) (i : ℕ)
    → eqb (i % 2) 0 ≡ false
    → start_attempts settings i ≡ settings.outbox_max_attempts - 1
unfolding start_attempts
start_odd settings i h = rw h refl

retry_announced :
    (settings : Settings) (i : ℕ)
    → start_attempts settings i + 1 < settings.outbox_max_attempts
    → Outcome.retry ≡ announced settings.outbox_max_attempts i
retry_announced settings i lt = elim (Bool-cases (eqb (i % 2) 0)) [
  | inl even ↦
      let lt' : 1 < settings.outbox_max_attempts = omega (arith, lt, start_even settings i even) in
      rw even (ground (arith, lt'))
  | inr odd ↦ absurd (omega (arith, lt, start_odd settings i odd))
]

dlq_announced :
    (settings : Settings) (i : ℕ)
    → 1 ≤ settings.outbox_max_attempts
    → settings.outbox_max_attempts ≤ start_attempts settings i + 1
    → Outcome.dlq ≡ announced settings.outbox_max_attempts i
dlq_announced settings i some_max le = elim (Bool-cases (eqb (i % 2) 0)) [
  | inl even ↦
      let le' : settings.outbox_max_attempts ≤ 1 = omega (arith, le, start_even settings i even) in
      rw even (ground (arith, le'))
  | inr odd ↦ rw odd refl
]

failure_announced :
    (settings : Settings) (now i : ℕ) (row row' : OutboxEntry) (r : Result PushResult) (o : Outcome)
    (e : Exc)
    → 1 ≤ settings.outbox_max_attempts
    → row.attempts ≡ start_attempts settings i
    → r ≡ err e
    → Transition settings.outbox_max_attempts now row r row' o
    → (o ≡ announced settings.outbox_max_attempts i)
      × (row'.attempts ≡ start_attempts settings i + 1)
failure_announced settings now i row row' r o e some_max at lost (succeeds p sent eq eo) =
    absurd (cc)
failure_announced settings now i row row' r o e some_max at lost (retries x d f lt lo hi eq eo) = (
  eo ∙ retry_announced settings i (rw (sym at) lt),
  ap (λ (s : OutboxEntry). s.attempts) eq ∙ ap (λ n. n + 1) at,
)
failure_announced settings now i row row' r o e some_max at lost (dies x f le eq eo) = (
  eo ∙ dlq_announced settings i some_max (rw (sym at) le),
  ap (λ (s : OutboxEntry). s.attempts) eq ∙ ap (λ n. n + 1) at,
)

module _ {E : Type 0} (rt : Runtime) (random : Random E) (publisher : Publisher E)
    (settings : Settings) (adapters : Adapters E) (uniform : IsUniform random) where
  -- The first failure of the `i`-th entry of sync_demo, with a limit of one attempt at least: where the
  -- limit leaves room for a retry, the even entries are retried and the odd ones are dead letters, as
  -- the script announces; with a limit of one attempt, all of them are dead letters. The jitter is
  -- within its bound, and the processing returns.
  pub make_pending_entry-announced :
      (dice : Dice E) (adapter : String) (at order_id i : ℕ) (e : E) {row : OutboxEntry} (now : ℕ)
      (w : World E) {row' : OutboxEntry} {o : Outcome} {x : Exc}
      → 1 ≤ settings.outbox_max_attempts
      → (make_pending_entry dice settings adapter at order_id (start_attempts settings i) e).0
        ≡ ok row
      → (attempt rt random publisher settings adapters now row w).0 ≡ err x
      → (process_entry rt random publisher settings adapters now row w).0 ≡ ok (row', o)
      → (o ≡ announced settings.outbox_max_attempts i)
        × (row'.attempts ≡ start_attempts settings i + 1)
  make_pending_entry-announced dice adapter at order_id i e {row} now w {row'} {o} {x} some_max made
        fails gives =
      failure_announced settings now i row row' _ o x some_max
        (made_attempts dice settings adapter at order_id (start_attempts settings i) e made) fails
        (process_entry-Transition rt random publisher settings adapters now uniform row w gives)
