-- ===== src/System/Failed.antt =====
-- The tool that lists failed orders, on the states that the services reach.
use retail_order_sync_hub.Base.{
  ℕ, ◌<◌, ℤ, String, false, Option, List, [], ◌∷◌, select, order_by, All, All-mono, ◌≡◌, refl,
  arith,
}
use retail_order_sync_hub.Model.{Order, WebhookLog}
use retail_order_sync_hub.Services.{Runtime, IsUniform}
use retail_order_sync_hub.World.{World}
use retail_order_sync_hub.Outbox.Queue.{AllKeepTables}
use retail_order_sync_hub.Subscriber.Silver.Keys.{HasSource}
use retail_order_sync_hub.Mcp.Queries.{is_failed, newest_first, failed_rows, find_failed_orders}
use retail_order_sync_hub.System.{Event, Deployment, steps}
use retail_order_sync_hub.System.Invariant.{IsSound, steps-IsSound}

-- An order that has been synchronized is no failed one.
not_failed :
    (rt : Runtime) (log : List WebhookLog) (since : ℤ) (marketplace : Option String) (row : Order)
    → HasSource rt log row
    → is_failed since marketplace row ≡ false
unfolding is_failed
not_failed rt log since marketplace row (event, i, (order, n, m, id, erp, status, (at, synced))) =
    rw synced (ground arith)

none_selected :
    {A : Type 0} (p : A → _) (rows : List A) → All (λ r. p r ≡ false) rows → select p rows ≡ []
none_selected p [] h = refl
none_selected p (r ∷ rows) (miss, h) = rw miss (none_selected p rows h)

module _ {E : Type 0} (d : Deployment E) (uniform : IsUniform d.random)
    (keeps : AllKeepTables d.adapters) (positive : 0 < d.settings.outbox_max_attempts) where
  -- The services never make an order that find_failed_orders lists: in every state that they reach from a
  -- sound one, in whatever order, it finds none, for every window and marketplace. The limit of attempts
  -- is positive, the pushes leave the shared tables alone, and the jitter is within its bound.
  pub steps-find_failed_orders :
      (es : List (Event E)) (w : World E) (iso : ℕ → String) (since : ℤ)
      (marketplace : Option String)
      → IsSound d.rt d.settings.outbox_max_attempts w
      → find_failed_orders iso since marketplace (steps d es w).db ≡ []
  unfolding find_failed_orders failed_rows newest_first order_by
  steps-find_failed_orders es w iso since marketplace sound =
      let db = (steps d es w).db in
      let after = steps-IsSound d uniform keeps positive es w sound in
      rw
        (none_selected (is_failed since marketplace) db.orders (
          All-mono (HasSource d.rt db.webhook_log) (λ r. is_failed since marketplace r ≡ false)
            db.orders (not_failed d.rt db.webhook_log since marketplace) after.lineage))
        refl
