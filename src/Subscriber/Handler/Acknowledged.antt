-- ===== src/Subscriber/Handler/Acknowledged.antt =====
-- What the acknowledgement of a message guarantees.
use retail_order_sync_hub.Base.{
  ℕ, ℤ, String, ◌==◌, string_eq, Option, none, some, [], ◌∷◌, ◌≡◌, refl, sym, inl, inr, Bool-cases,
}
use retail_order_sync_hub.Json.{Value, str, dict}
use retail_order_sync_hub.Config.{Settings}
use retail_order_sync_hub.Services.{Runtime, Publisher, outside}
use retail_order_sync_hub.Odoo.{Odoo}
use retail_order_sync_hub.Reconciler.{reconcile_to_odoo}
use retail_order_sync_hub.Model.{Order}
use retail_order_sync_hub.World.{World, count}
use retail_order_sync_hub.Exec.{Result, ok, Result-cases, ok-injective, ◌>>=◌}
use retail_order_sync_hub.Subscriber.Normalize.{NormalizedOrder, normalize_event}
use retail_order_sync_hub.Subscriber.Silver.{upsert_order, upsert_found}
use retail_order_sync_hub.Subscriber.Handler.{Handled, processed, poison, deliver, process_event}

module _ {E : Type 0} (rt : Runtime) (settings : Settings) (publisher : Publisher E)
    (odoo : Option (Odoo E)) where
  upsert_found_returns :
      (order : NormalizedOrder) (row : Option Order) (w : World E)
      → (n : ℕ) × ((upsert_found order row w).0 ≡ ok n)
  unfolding upsert_found
  upsert_found_returns order none w = (_, refl)
  upsert_found_returns order (some row) w = (_, refl)

  pub upsert_returns :
      (order : NormalizedOrder) (w : World E) → (n : ℕ) × ((upsert_order order w).0 ≡ ok n)
  unfolding upsert_order
  upsert_returns order w = upsert_found_returns order _ w

  pub db-deliver :
      (erp : Option (Odoo E)) (id : Option ℤ) (status : String) (w : World E)
      → (deliver rt settings publisher odoo erp id status w).1.db ≡ w.db
  unfolding ◌>>=◌ outside
  db-deliver none id status w = refl
  db-deliver (some erp) none status w = refl
  db-deliver (some erp) (some id) status w = elim (Bool-cases (status == "delivered")) [
    | inl is ↦ elim (Result-cases (reconcile_to_odoo erp id status w.env).0) [
      | inl (changed, e) ↦ rw is (rw e refl)
      | inr (x, e) ↦ rw is (rw e refl)
    ]
    | inr other ↦ rw other refl
  ]

  -- The tables behind an event that is processed: those of the upsert of its normalized order.
  pub process_event_ok :
      (source : String) (raw : Value) (w : World E) {h : Handled}
      → (process_event rt settings publisher odoo source raw w).0 ≡ ok h
      → (order : NormalizedOrder) × (normalize_event rt source raw ≡ ok order)
        × ((process_event rt settings publisher odoo source raw w).1.db
            ≡ (upsert_order order w).1.db)
        × (h ≡ processed)
  unfolding process_event ◌>>=◌ count
  process_event_ok source raw w h = elim (Result-cases (normalize_event rt source raw)) [
    | inl (order, e) ↦
        let (n, u) = upsert_returns order w in
        let w₁ = (upsert_order order w).1 in
        let w₂ = count "silver_orders_total" (("marketplace", order.marketplace) ∷ []) w₁ in
        let kept = db-deliver odoo order.odoo_order_id order.status w₂ in
        elim (Result-cases
          (deliver rt settings publisher odoo odoo order.odoo_order_id order.status w₂).0) [
            | inl (t, d) ↦ (
              order,
              e,
              rw e (rw u (rw d kept)),
              sym (ok-injective (rw d at (rw u at (rw e at h)))),
            )
            | inr (x, d) ↦ absurd (cc (rw d at (rw u at (rw e at h))))
          ]
    | inr (x, e) ↦ absurd (cc (rw e at h))
  ]

  -- The publication of a dead letter.
  abbrev pub publish_letter : Value → String → E → Result String × E
  publish_letter envelope reason =
      publisher.publish settings.pubsub_topic_dlq
        (rt.dumps (dict (("reason", str reason) ∷ ("envelope", envelope) ∷ [])))
        (("reason", "poison") ∷ [])

  -- What an envelope that is handled without an exception has left: its order in the silver table, or
  -- its dead letter with the broker.
  pub data Settled (envelope : Value) (w w' : World E) : Handled → Type 0 where
    stored :
        (source : String) (raw : Value) (order : NormalizedOrder)
        → normalize_event rt source raw ≡ ok order
        → w'.db ≡ (upsert_order order w).1.db
        → Settled envelope w w' processed
    lettered :
        (reason id : String) (e : E)
        → (publish_letter envelope reason e).0 ≡ ok id
        → w'.env ≡ (publish_letter envelope reason e).1
        → Settled envelope w w' poison
