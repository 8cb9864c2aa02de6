-- ===== src/System/Invariant.antt =====
-- What holds of the shared tables in every state that the services reach, in any order of their
-- operations.
use mathlib.Core.Path.{subst}
use retail_order_sync_hub.Exec.{ok}
use retail_order_sync_hub.Services.{Bytes}
use retail_order_sync_hub.Base.{
  ℕ, ◌<◌, find, Option, none, some, In, List, [], ◌∷◌, All, ◌≡◌, refl, sym, ap, ◌∙◌, inl, inr,
}
use retail_order_sync_hub.Model.{WebhookLog, WebhookDedup, Order, Db}
use retail_order_sync_hub.Services.{Runtime, IsUniform}
use retail_order_sync_hub.World.{World}
use retail_order_sync_hub.System.{
  Event, round, request, message, tool, elapse, Deployment, step, steps,
}
use retail_order_sync_hub.Outbox.Queue.{queue, inbound, AllKeepTables}
use retail_order_sync_hub.Outbox.Invariant.{IsValid}
use retail_order_sync_hub.Outbox.Invariant.Round.{Preserves-run_once}
use retail_order_sync_hub.Outbox.Invariant.Rewritten.{IsValid-Rewrites}
use retail_order_sync_hub.Webhook.Store.Dedup.{IsConsistent, HasUniqueEvents, log_keys, dedup_keys}
use retail_order_sync_hub.Webhook.Receiver.Delivery.{Inbound, receive-IsConsistent}
use retail_order_sync_hub.Webhook.Receiver.Appends.{Appends-receive}
use retail_order_sync_hub.Outbox.Invariant.Inbound.{Keeps-run_once}
use retail_order_sync_hub.Subscriber.Handler.Lineage.{handle_message-Recorded}
use retail_order_sync_hub.Subscriber.Handler.Ids.{ids-handle_message}
use retail_order_sync_hub.Subscriber.Normalize.{NormalizedOrder, normalize_event}
use retail_order_sync_hub.Subscriber.Silver.{is_row, upsert_order, upsert_found}
use retail_order_sync_hub.Mcp.WriteTools.Trail.{Tool}
use retail_order_sync_hub.Subscriber.Silver.Keys.{
  HasUniqueOrders, HasSource, All-HasSource-append, upsert_order-HasUniqueOrders,
  upsert_order-HasSource,
}
use retail_order_sync_hub.Mcp.WriteTools.Resets.{run-Resets}

-- The outbox is valid, the events are unique and one to one with the bronze rows, the orders of the
-- silver table are unique, and each is, column by column, the order of some bronze row.
pub record IsSound (rt : Runtime) (max : ℕ) {E : Type 0} (w : World E) : Type 0 where
  pub outbox : IsValid max (queue w)
  pub bronze : IsConsistent w.db
  pub silver : HasUniqueOrders w.db.orders
  pub lineage : All (HasSource rt w.db.webhook_log) w.db.orders

module _ (rt : Runtime) (max : ℕ) {E : Type 0} where
  -- Where the inbound tables are as they were, the outbox alone is to be looked at.
  IsSound-inbound :
      (w w' : World E)
      → inbound w' ≡ inbound w
      → IsSound rt max w
      → IsValid max (queue w')
      → IsSound rt max w'
  IsSound-inbound w w' same h valid = record {
    outbox = valid;
    bronze = record {
      unique = subst HasUniqueEvents (sym (ap (λ q. q.1) same)) h.bronze.unique;
      paired = ap (λ q. log_keys q.0) same ∙ h.bronze.paired ∙ sym (ap (λ q. dedup_keys q.1) same);
    };
    silver = subst HasUniqueOrders (sym (ap (λ q. q.2) same)) h.silver;
    lineage =
        subst (λ (q : List WebhookLog × List WebhookDedup × List Order). All (HasSource rt q.0) q.2)
          (sym same) h.lineage;
  }

pair_eq : {A B : Type 0} {a b : A} {c d : B} → a ≡ b → c ≡ d → ◌≡◌ {A = A × B} (a, c) (b, d)
pair_eq p q = λ i. (p i, q i)

-- An upsert writes the silver table alone.
db-upsert_order :
    {E : Type 0} (order : NormalizedOrder) (w : World E)
    → (upsert_order order w).1.db ≡ record w.db { orders = (upsert_order order w).1.db.orders }
unfolding upsert_order
db-upsert_order order w =
    by_found (find (is_row order.marketplace order.marketplace_order_id) w.db.orders)
  where
    by_found :
        (found : Option Order)
        → (upsert_found order found w).1.db
          ≡ record w.db { orders = (upsert_found order found w).1.db.orders }
    by_found none = unfold upsert_found in refl
    by_found (some row) = unfold upsert_found in refl

module _ {E : Type 0} (d : Deployment E) (uniform : IsUniform d.random)
    (keeps : AllKeepTables d.adapters) (positive : 0 < d.settings.outbox_max_attempts) where
  abbrev max : ℕ
  max = d.settings.outbox_max_attempts

  round-IsSound : (w : World E) → IsSound d.rt max w → IsSound d.rt max (step d round w)
  unfolding step
  round-IsSound w h =
      IsSound-inbound d.rt max w (step d round w)
        ((Keeps-run_once d.rt d.random d.publisher d.settings d.odoo d.adapters keeps).same w) h
        ((Preserves-run_once d.rt d.random d.publisher d.settings d.adapters uniform keeps d.odoo
            positive).holds
          w h.outbox)

  tool-IsSound :
      (t : Tool) (w : World E) → IsSound d.rt max w → IsSound d.rt max (step d (tool t) w)
  unfolding step
  tool-IsSound t w h =
      let r = run-Resets max positive w h.outbox.unique_ids d.listing d.settings t in
      let w' = step d (tool t) w in
      let next = ap (λ q. q.0.outbox) r.rest in
      IsSound-inbound d.rt max w w' (ap (λ q. (q.1, q.2, q.3)) r.rest) h (
        subst (λ n. IsValid max (w'.db.outbox, n)) (sym next)
          (IsValid-Rewrites max w.db.outbox w'.db.outbox w.seq.outbox r.rows h.outbox))

  request-IsSound :
      (m : Inbound) (w : World E) → IsSound d.rt max w → IsSound d.rt max (step d (request m) w)
  unfolding step
  request-IsSound m w h =
      let a = Appends-receive d.rt d.publisher d.settings d.iso m w in
      record {
        outbox = subst (IsValid max) (sym a.outbox) h.outbox;
        bronze = receive-IsConsistent d.rt d.publisher d.settings d.iso m w h.bronze;
        silver = subst HasUniqueOrders (sym a.orders) h.silver;
        lineage =
            rw (a.log, a.orders)
              (All-HasSource-append d.rt w.db.webhook_log a.news w.db.orders h.lineage);
      }

  -- The tables of an upsert of a bronze row's order.
  recorded-IsSound :
      (row : WebhookLog) (order : NormalizedOrder) (w w' : World E)
      → In row w.db.webhook_log
      → normalize_event d.rt row.source row.raw_body ≡ ok order
      → w'.db ≡ (upsert_order order w).1.db
      → w'.seq.outbox ≡ w.seq.outbox
      → IsSound d.rt max w
      → IsSound d.rt max w'
  recorded-IsSound row order w w' i normalized db next h =
      let upserted = db ∙ db-upsert_order order w in
      let log = ap (λ (t : Db). t.webhook_log) upserted in
      let orders = ap (λ (t : Db). t.orders) db in
      record {
        outbox =
            subst (IsValid max) (sym (pair_eq (ap (λ (t : Db). t.outbox) upserted) next)) h.outbox;
        bronze = record {
          unique =
              subst HasUniqueEvents (sym (ap (λ (t : Db). t.webhook_dedup) upserted))
                h.bronze.unique;
          paired =
              ap log_keys log
              ∙ h.bronze.paired
              ∙ sym (ap (λ (t : Db). dedup_keys t.webhook_dedup) upserted);
        };
        silver = subst HasUniqueOrders (sym orders) (upsert_order-HasUniqueOrders order w h.silver);
        lineage =
            subst (λ (q : List WebhookLog × List Order). All (HasSource d.rt q.0) q.1)
              (sym (pair_eq log orders))
              (upsert_order-HasSource order d.rt row normalized w i h.lineage);
      }

  message-IsSound :
      (m : Bytes) (w : World E) → IsSound d.rt max w → IsSound d.rt max (step d (message m) w)
  unfolding step
  message-IsSound m w h =
      let w' = step d (message m) w in
      let next =
        ap (λ q. q.0) (ids-handle_message d.rt d.settings d.publisher d.subscriber_odoo m w) in
      elim (handle_message-Recorded d.rt d.settings d.publisher d.subscriber_odoo m w) [
        | inl same ↦
            IsSound-inbound d.rt max w w'
              (ap (λ (t : Db). (t.webhook_log, t.webhook_dedup, t.orders)) same) h
              (subst (IsValid max) (sym (pair_eq (ap (λ (t : Db). t.outbox) same) next)) h.outbox)
        | inr (row, i, (order, normalized, db)) ↦
            recorded-IsSound row order w w' i normalized db next h
      ]

  step-IsSound : (e : Event E) (w : World E) → IsSound d.rt max w → IsSound d.rt max (step d e w)
  step-IsSound round w h = round-IsSound w h
  step-IsSound (request m) w h = request-IsSound m w h
  step-IsSound (message m) w h = message-IsSound m w h
  step-IsSound (tool t) w h = tool-IsSound t w h
  step-IsSound (elapse n f) w h =
      unfold step in
      record { outbox = h.outbox; bronze = h.bronze; silver = h.silver; lineage = h.lineage }

  -- Whatever the services do, in whatever order, errors included, the shared tables stay sound: in
  -- the outbox the status of each row agrees with its attempts and its error and both keys are
  -- unique, the events are unique and one to one with the bronze rows, the orders of the silver
  -- table are unique, and each of them has been synchronized and has the key, the ERP's id and the
  -- status that some bronze row is normalized to. The limit of attempts is positive, the pushes
  -- leave the shared tables alone, and the jitter is within its bound.
  pub steps-IsSound :
      (es : List (Event E)) (w : World E) → IsSound d.rt max w → IsSound d.rt max (steps d es w)
  unfolding steps
  steps-IsSound [] w h = h
  steps-IsSound (e ∷ es) w h = steps-IsSound es (step d e w) (step-IsSound e w h)
