-- ===== src/Subscriber/Handler/Lineage.antt =====
-- Where the rows of the silver table come from: each change of the tables by a message is the upsert of
-- the order of a bronze row.
use retail_order_sync_hub.Base.{
  ◌⊎◌, String, string_eq, Option, some, [], ◌∷◌, In, find, find-In, ◌≡◌, refl, sym, inl, inr,
  Option-cases, arith, eq_iff,
}
use mathlib.Core.Option.{some-injective}
use retail_order_sync_hub.Access.{get, text_or}
use retail_order_sync_hub.Json.{Value, null, bool, int, float, str, arr, obj}
use retail_order_sync_hub.Config.{Settings}
use retail_order_sync_hub.Services.{Runtime, Bytes, Publisher, outside}
use retail_order_sync_hub.Odoo.{Odoo}
use retail_order_sync_hub.Model.{WebhookLog, Db}
use retail_order_sync_hub.World.{World, count}
use retail_order_sync_hub.World.Session.{session_scope, session_scope_ok}
use retail_order_sync_hub.Exec.{Exc, ok, Result-cases, pure, raise, try, ◌>>=◌, ◌>>◌, poison_error}
use retail_order_sync_hub.Subscriber.Normalize.{NormalizedOrder, normalize_event}
use retail_order_sync_hub.Subscriber.Silver.{upsert_order}
use retail_order_sync_hub.Subscriber.Handler.{
  poison, body_of, bound_id, is_bronze, to_dlq, deliver, process_event, poison_clause, handle_body,
  handle_envelope, handle_message,
}
use retail_order_sync_hub.Subscriber.Handler.Acknowledged.{db-deliver, upsert_returns}

-- The bronze row whose body is read.
body_of-raw : (row : WebhookLog) {raw : Value} → body_of (some row) ≡ some raw → raw ≡ row.raw_body
body_of-raw row {raw} h = by_body row.raw_body raw h
  where
    by_body : (v raw : Value) → body_of (some (record row { raw_body = v })) ≡ some raw → raw ≡ v
    by_body null raw h = absurd (cc)
    by_body (bool b) raw h = sym (some-injective _ _ h)
    by_body (int n) raw h = sym (some-injective _ _ h)
    by_body (float n b t) raw h = sym (some-injective _ _ h)
    by_body (str s) raw h = sym (some-injective _ _ h)
    by_body (arr vs) raw h = sym (some-injective _ _ h)
    by_body (obj fs) raw h = sym (some-injective _ _ h)

module _ {E : Type 0} (rt : Runtime) where
  -- The tables are as they were, or they are those of the upsert of the order of this event.
  abbrev Upserted : String → Value → World E → Db → Type 0
  Upserted source raw w db =
      (db ≡ w.db)
      ⊎ ((order : NormalizedOrder) × (normalize_event rt source raw ≡ ok order)
          × (db ≡ (upsert_order order w).1.db))

  -- The same, of the event of some bronze row.
  abbrev pub Recorded : World E → Db → Type 0
  Recorded w db =
      (db ≡ w.db)
      ⊎ ((row : WebhookLog) × In row w.db.webhook_log
          × ((order : NormalizedOrder) × (normalize_event rt row.source row.raw_body ≡ ok order)
              × (db ≡ (upsert_order order w).1.db)))

module _ {E : Type 0} (rt : Runtime) (settings : Settings) (publisher : Publisher E)
    (odoo : Option (Odoo E)) where
  process_event_upserts :
      (source : String) (raw : Value) (w : World E)
      → Upserted rt source raw w (process_event rt settings publisher odoo source raw w).1.db
  unfolding process_event ◌>>=◌ count
  process_event_upserts source raw w = elim (Result-cases (normalize_event rt source raw)) [
    | inl (order, e) ↦
        let (n, u) = upsert_returns rt settings publisher odoo order w in
        let w₁ = (upsert_order order w).1 in
        let w₂ = count "silver_orders_total" (("marketplace", order.marketplace) ∷ []) w₁ in
        let kept = db-deliver rt settings publisher odoo odoo order.odoo_order_id order.status w₂ in
        elim (Result-cases
          (deliver rt settings publisher odoo odoo order.odoo_order_id order.status w₂).0) [
            | inl (t, d) ↦ inr (order, e, rw e (rw u (rw d kept)))
            | inr (x, d) ↦ inr (order, e, rw e (rw u (rw d kept)))
          ]
    | inr (x, e) ↦ inl (rw e refl)
  ]

  db-letter :
      (envelope : Value) (reason : String) (w : World E)
      → ((to_dlq rt settings publisher odoo envelope reason >> pure poison) w).1.db ≡ w.db
  unfolding to_dlq ◌>>=◌ outside
  db-letter envelope reason w = ground arith

  db-poison_clause :
      (envelope : Value) (x : Exc) (w : World E)
      → (poison_clause rt settings publisher odoo envelope x w).1.db ≡ w.db
  unfolding raise
  db-poison_clause envelope (poison_error reason) w = db-letter envelope reason w
  db-poison_clause envelope _ w = refl

  handle_body_upserts :
      (envelope : Value) (source : String) (raw : Value) (w : World E)
      → Upserted rt source raw w
          (handle_body rt settings publisher odoo envelope source (some raw) w).1.db
  unfolding handle_body try
  handle_body_upserts envelope source raw w =
      elim (Result-cases (process_event rt settings publisher odoo source raw w).0) [
        | inl (r, e) ↦ rw e (process_event_upserts source raw w)
        | inr (x, e) ↦ rw e (
            rw
              (db-poison_clause envelope x
                (process_event rt settings publisher odoo source raw w).1)
              (process_event_upserts source raw w))
      ]

  of_row :
      (envelope : Value) (id : Option String) (source : String) (w : World E) (row : WebhookLog)
      (raw : Value)
      → In row w.db.webhook_log
      → row.source ≡ source
      → raw ≡ row.raw_body
      → Recorded rt w (handle_body rt settings publisher odoo envelope source (some raw) w).1.db
  of_row envelope id source w row raw i s b = elim (handle_body_upserts envelope source raw w) [
    | inl same ↦ inl same
    | inr (order, e, db) ↦ inr (row, i, (order, rw (s, ← b) e, db))
  ]

  handle_body_records :
      (envelope : Value) (id : Option String) (source : String) (w : World E)
      → Recorded rt w
          (handle_body rt settings publisher odoo envelope source
            (body_of (find (is_bronze id source) w.db.webhook_log))
            w).1.db
  handle_body_records envelope id source w =
      elim (Option-cases (body_of (find (is_bronze id source) w.db.webhook_log))) [
        | inl no_body ↦
            inl (rw no_body (unfold handle_body in db-letter envelope "bronze row not found" w))
        | inr (raw, e) ↦ elim (Option-cases (find (is_bronze id source) w.db.webhook_log)) [
          | inl miss ↦ absurd (cc (rw miss at e))
          | inr (row, hit) ↦
              let (i, p) = find-In (is_bronze id source) w.db.webhook_log hit in
              let same : row.source ≡ source =
                unfold is_bronze in ground (arith, eq_iff row.source source) in
              rw e (of_row envelope id source w row raw i same (body_of-raw row (rw hit at e)))
        ]
      ]

  handle_envelope_records :
      (envelope : Value) (w : World E)
      → Recorded rt w (handle_envelope rt settings publisher odoo envelope w).1.db
  unfolding handle_envelope ◌>>=◌
  handle_envelope_records envelope w = elim (Result-cases (get envelope "event_id")) [
    | inl (id, e) ↦ elim (Result-cases (get envelope "source")) [
      | inl (source, f) ↦ elim (Result-cases (bound_id rt id)) [
        | inl (text, g) ↦
            rw e (rw f (rw g (handle_body_records envelope text (text_or rt "" source) w)))
        | inr (x, g) ↦ inl (rw e (rw f (rw g refl)))
      ]
      | inr (x, f) ↦ inl (rw e (rw f refl))
    ]
    | inr (x, e) ↦ inl (rw e refl)
  ]

  -- A message changes the tables only by the upsert of the order that some bronze row's event is
  -- normalized to, whether the message is acknowledged or not.
  pub handle_message-Recorded :
      (message : Bytes) (w : World E)
      → Recorded rt w (handle_message rt settings publisher odoo message w).1.db
  unfolding handle_message ◌>>=◌
  handle_message-Recorded message w = elim (Result-cases (rt.loads message)) [
    | inl (envelope, e) ↦
        let body = handle_envelope rt settings publisher odoo envelope in
        elim (Result-cases (body w).0) [
          | inl (h, f) ↦ rw e (rw (session_scope_ok body w f) (handle_envelope_records envelope w))
          | inr (x, f) ↦ inl (rw e (unfold session_scope in rw f refl))
        ]
    | inr (x, e) ↦ inl (rw e refl)
  ]
