-- ===== src/Subscriber/Handler/Ids.antt =====
-- A message draws no id but those of the silver table.
use retail_order_sync_hub.Base.{
  ℕ, ℤ, String, ◌==◌, string_eq, Option, none, some, [], ◌∷◌, ◌≡◌, refl, inl, inr, Bool-cases,
}
use retail_order_sync_hub.Access.{get, text_or}
use retail_order_sync_hub.Json.{Value}
use retail_order_sync_hub.Config.{Settings}
use retail_order_sync_hub.Services.{Runtime, Bytes, Publisher}
use retail_order_sync_hub.Odoo.{Odoo}
use retail_order_sync_hub.Model.{Order}
use retail_order_sync_hub.World.{World, count}
use retail_order_sync_hub.World.Keeps.{
  Keeps, Keeps-bind, Keeps-outside, Keeps-pure, Keeps-lift, Keeps-raise, Keeps-gets, Keeps-try,
  Keeps-session_scope,
}
use retail_order_sync_hub.Exec.{Exc, poison_error, modify, pure, ◌>>◌}
use retail_order_sync_hub.Subscriber.Normalize.{NormalizedOrder, normalize_event}
use retail_order_sync_hub.Subscriber.Silver.{upsert_order, upsert_found}
use retail_order_sync_hub.Subscriber.Handler.{
  Handled, poison, bound_id, to_dlq, deliver, process_event, poison_clause, handle_body,
  handle_envelope, handle_message,
}

-- The ids of the outbox and of the bronze table that are drawn next.
abbrev pub ids : {E : Type 0} → World E → ℕ × ℕ
ids w = (w.seq.outbox, w.seq.webhook_log)

module _ {E : Type 0} (rt : Runtime) (settings : Settings) (publisher : Publisher E)
    (odoo : Option (Odoo E)) where
  Keeps-upsert_found :
      (order : NormalizedOrder) (found : Option Order)
      → Keeps {E = E} ids (upsert_found order found)
  unfolding upsert_found
  Keeps-upsert_found order none = record { same = λ w. refl }
  Keeps-upsert_found order (some row) = record { same = λ w. refl }

  Keeps-upsert_order : (order : NormalizedOrder) → Keeps {E = E} ids (upsert_order order)
  unfolding upsert_order
  Keeps-upsert_order order = record { same = λ w. (Keeps-upsert_found order _).same w }

  Keeps-count :
      (n : NormalizedOrder)
      → Keeps {E = E} ids
          (modify (count "silver_orders_total" (("marketplace", n.marketplace) ∷ [])))
  unfolding modify count
  Keeps-count n = record { same = λ w. refl }

  Keeps-deliver :
      (erp : Option (Odoo E)) (id : Option ℤ) (status : String)
      → Keeps ids (deliver rt settings publisher odoo erp id status)
  unfolding deliver
  Keeps-deliver none id status = Keeps-pure ids tt
  Keeps-deliver (some erp) none status = Keeps-pure ids tt
  Keeps-deliver (some erp) (some id) status = elim (Bool-cases (status == "delivered")) [
    | inl is ↦ rw is (Keeps-bind ids _ _ (Keeps-outside ids _ (λ w e. refl)) λ u. Keeps-pure ids tt)
    | inr other ↦ rw other (Keeps-pure ids tt)
  ]

  Keeps-process_event :
      (source : String) (raw : Value)
      → Keeps ids (process_event rt settings publisher odoo source raw)
  unfolding process_event
  Keeps-process_event source raw =
      Keeps-bind ids _ _ (Keeps-lift ids (normalize_event rt source raw)) λ n.
        Keeps-bind ids _ _ (Keeps-upsert_order n) λ id. Keeps-bind ids _ _ (Keeps-count n) λ u.
          Keeps-bind ids _ _ (Keeps-deliver odoo n.odoo_order_id n.status)
            λ t. Keeps-pure ids Handled.processed

  Keeps-letter :
      (envelope : Value) (reason : String)
      → Keeps ids (to_dlq rt settings publisher odoo envelope reason >> pure poison)
  unfolding to_dlq
  Keeps-letter envelope reason =
      Keeps-bind ids _ _
        (Keeps-bind ids _ _ (Keeps-outside ids _ (λ w e. refl)) λ id. Keeps-pure ids tt)
        λ u. Keeps-pure ids poison

  Keeps-poison_clause :
      (envelope : Value) (x : Exc) → Keeps ids (poison_clause rt settings publisher odoo envelope x)
  Keeps-poison_clause envelope (poison_error reason) = Keeps-letter envelope reason
  Keeps-poison_clause envelope x = Keeps-raise ids x

  Keeps-handle_body :
      (envelope : Value) (source : String) (raw : Option Value)
      → Keeps ids (handle_body rt settings publisher odoo envelope source raw)
  unfolding handle_body
  Keeps-handle_body envelope source none = Keeps-letter envelope _
  Keeps-handle_body envelope source (some raw) =
      Keeps-try ids _ _ (Keeps-process_event source raw) (Keeps-poison_clause envelope)

  Keeps-handle_envelope :
      (envelope : Value) → Keeps ids (handle_envelope rt settings publisher odoo envelope)
  unfolding handle_envelope
  Keeps-handle_envelope envelope =
      Keeps-bind ids _ _ (Keeps-lift ids (get envelope "event_id")) λ id.
        Keeps-bind ids _ _ (Keeps-lift ids (get envelope "source")) λ source.
          Keeps-bind ids _ _ (Keeps-lift ids (bound_id rt id)) λ text.
            Keeps-bind ids _ _ (Keeps-gets ids _)
              λ row. Keeps-handle_body envelope (text_or rt "" source) _

  pub ids-handle_message :
      (message : Bytes) (w : World E)
      → ids (handle_message rt settings publisher odoo message w).1 ≡ ids w
  unfolding handle_message
  ids-handle_message message w =
      (Keeps-bind ids _ _ (Keeps-lift ids (rt.loads message))
          λ envelope. Keeps-session_scope ids _ (λ w d. refl) (Keeps-handle_envelope envelope)).same
        w
