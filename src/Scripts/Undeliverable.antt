-- ===== src/Scripts/Undeliverable.antt =====
-- The dead letters of scripts/chaos/flood_dlq.py: their payload is no order, so no replay delivers them.
use retail_order_sync_hub.Base.{
  ℕ, String, Option, none, some, ◌≡◌, ◌≢◌, refl, sym, ap, inl, inr, Option-cases, List,
}
use retail_order_sync_hub.Json.{Value}
use retail_order_sync_hub.Config.{Settings}
use retail_order_sync_hub.Services.{Runtime, Publisher, Random, IsUniform}
use retail_order_sync_hub.Model.{OutboxEntry}
use retail_order_sync_hub.World.{World}
use retail_order_sync_hub.Exec.{Exc, Result, ok, err, ok-injective, ◌>>=◌, pure, Result-cases}
use retail_order_sync_hub.Adapters.Dto.{OrderItemDto, combine, order_from_payload, PushResult}
use retail_order_sync_hub.Outbox.Processor.{Outcome, Adapters, adapter_of, attempt, process_entry}
use retail_order_sync_hub.Outbox.Processor.Entry.{
  Transition, succeeds, retries, dies, process_entry-Transition,
}
use retail_order_sync_hub.Mcp.WriteTools.{reset_row}
use retail_order_sync_hub.Scripts.{Dice}
use retail_order_sync_hub.Scripts.FloodDlq.{Draw, dlq_payload, make_dlq_entry, draw}

-- A payload without a buyer is no order.
combine-none :
    (id : Option _) (is : Option (List OrderItemDto)) (ref : Option String)
    → combine id none is ref ≡ none
combine-none none is ref = refl
combine-none (some id) is ref = refl

-- A payload that the script writes.
abbrev IsDemo : Value → Type 0
IsDemo v = (order_id : ℕ) × (adapter : String) × (d : Draw) × (v ≡ dlq_payload order_id adapter d)

IsDemo-entry :
    {E : Type 0} (dice : Dice E) (order_id : ℕ) (adapter : String) (at : ℕ) (e : E)
    {row : OutboxEntry}
    → (make_dlq_entry dice order_id adapter at e).0 ≡ ok row
    → IsDemo row.payload
unfolding make_dlq_entry ◌>>=◌ pure
IsDemo-entry dice order_id adapter at e h = elim (Result-cases (draw dice e).0) [
  | inl (d, drawn) ↦ (
    order_id,
    adapter,
    d,
    ap (λ (r : OutboxEntry). r.payload) (sym (ok-injective (rw drawn at h))),
  )
  | inr (x, lost) ↦ absurd (cc (rw lost at h))
]

module _ {E : Type 0} (rt : Runtime) (random : Random E) (publisher : Publisher E)
    (settings : Settings) (adapters : Adapters E) (uniform : IsUniform random) where
  refused :
      (order_id : ℕ) (adapter : String) (d : Draw)
      → (e : Exc) × (order_from_payload rt (dlq_payload order_id adapter d) ≡ err e)
  unfolding order_from_payload
  refused order_id adapter d = rw (combine-none _ _ _) (_, refl)

  unpushed :
      (now : ℕ) (row : OutboxEntry) (w : World E)
      → IsDemo row.payload
      → (e : Exc) × ((attempt rt random publisher settings adapters now row w).0 ≡ err e)
  unfolding attempt ◌>>=◌
  unpushed now row w (order_id, adapter, d, demo) =
      elim (Option-cases (adapter_of row.target_adapter adapters)) [
        | inl missing ↦ rw missing (_, refl)
        | inr (a, found) ↦
            let (e, bad) = refused order_id adapter d in (e, rw found (rw demo (rw bad refl)))
      ]

  -- What a row goes through: processings, in any worlds and at any times, and resets by the tools. The
  -- outcome is that of the last processing.
  pub data Rounds (row : OutboxEntry) : OutboxEntry → Outcome → Type 0 where
    first :
        (now : ℕ) (w : World E) (row' : OutboxEntry) (o : Outcome)
        → (process_entry rt random publisher settings adapters now row w).0 ≡ ok (row', o)
        → Rounds row row' o
    next :
        (now : ℕ) (w : World E) (mid row' : OutboxEntry) (last o : Outcome)
        → Rounds row mid last
        → (process_entry rt random publisher settings adapters now mid w).0 ≡ ok (row', o)
        → Rounds row row' o
    replayed :
        (now : ℕ) (row' : OutboxEntry) (o : Outcome)
        → Rounds row row' o
        → Rounds row (reset_row now row') o

  Transition-keeps :
      (max now : ℕ) (row row' : OutboxEntry) (r : Result PushResult) (o : Outcome) (e : Exc)
      → r ≡ err e
      → Transition max now row r row' o
      → (o ≢ Outcome.done) × (row'.payload ≡ row.payload)
  Transition-keeps max now row row' r o e lost (succeeds p sent eq eo) = absurd (cc)
  Transition-keeps max now row row' r o e lost (retries x delay f lt lo hi eq eo) =
      ((λ is. absurd (cc)), ap (λ (s : OutboxEntry). s.payload) eq)
  Transition-keeps max now row row' r o e lost (dies x f le eq eo) =
      ((λ is. absurd (cc)), ap (λ (s : OutboxEntry). s.payload) eq)

  once :
      (now : ℕ) (w : World E) (row row' : OutboxEntry) (o : Outcome)
      → IsDemo row.payload
      → (process_entry rt random publisher settings adapters now row w).0 ≡ ok (row', o)
      → (o ≢ Outcome.done) × IsDemo row'.payload
  once now w row row' o demo h =
      let (e, lost) = unpushed now row w demo in
      let (undone, same) =
        Transition-keeps _ now row row' _ o e lost
          (process_entry-Transition rt random publisher settings adapters now uniform row w h) in
      (undone, rw same demo)

  all-Rounds :
      (row row' : OutboxEntry) (o : Outcome)
      → IsDemo row.payload
      → Rounds row row' o
      → (o ≢ Outcome.done) × IsDemo row'.payload
  all-Rounds row row' o demo (first now w last f h) = once now w row row' o demo h
  all-Rounds row row' o demo (next now w mid last before f rounds h) =
      once now w mid row' o (all-Rounds row mid before demo rounds).1 h
  all-Rounds row row' o demo (replayed now mid f rounds) = all-Rounds row mid o demo rounds

  -- A dead letter that flood_dlq makes is never delivered: whatever resets and processings it goes
  -- through after a replay, in any worlds and with any adapters, no processing that returns has the
  -- outcome done. The jitter is within its bound.
  pub make_dlq_entry_undeliverable :
      (dice : Dice E) (order_id : ℕ) (adapter : String) (at : ℕ) (e : E) {row : OutboxEntry}
      (now : ℕ) (row' : OutboxEntry) (o : Outcome)
      → (make_dlq_entry dice order_id adapter at e).0 ≡ ok row
      → Rounds (reset_row now row) row' o
      → o ≢ Outcome.done
  make_dlq_entry_undeliverable dice order_id adapter at e {row} now row' o made rounds =
      (all-Rounds (reset_row now row) row' o (IsDemo-entry dice order_id adapter at e made)
        rounds).0
