-- ===== src/Webhook/Receiver/Appends.antt =====
-- What a request leaves alone: it appends bronze rows at most, and touches neither the silver table nor
-- the outbox.
use mathlib.Core.List.{append-nil}
use retail_order_sync_hub.Base.{ℕ, String, List, [], ◌∷◌, ◌++◌, ◌≡◌, refl, sym}
use retail_order_sync_hub.Json.{Value}
use retail_order_sync_hub.Config.{Settings}
use retail_order_sync_hub.Model.{WebhookLog}
use retail_order_sync_hub.Services.{Runtime, Publisher}
use retail_order_sync_hub.Signing.{signature_header}
use retail_order_sync_hub.World.{World, count}
use retail_order_sync_hub.Exec.{Result}
use retail_order_sync_hub.Outbox.Queue.{queue}
use retail_order_sync_hub.Webhook.Store.Dedup.{new_log}
use retail_order_sync_hub.Webhook.Receiver.{Request, Response, ml_event_id, paris_event_id}
use retail_order_sync_hub.Webhook.Receiver.Answers.{
  served, Answer, unsigned, unreadable, malformed, unexpected, duplicate, accepted, refused,
  handle-Answer,
}
use retail_order_sync_hub.Webhook.Receiver.Delivery.{Inbound, to_mercadolibre, to_paris, receive}

pub record Appends {E : Type 0} (w w' : World E) : Type 0 where
  pub news : List WebhookLog
  pub log : w'.db.webhook_log ≡ w.db.webhook_log ++ news
  pub orders : w'.db.orders ≡ w.db.orders
  pub outbox : queue w' ≡ queue w

module _ {E : Type 0} (rt : Runtime) (publisher : Publisher E) (settings : Settings)
    (iso : ℕ → String) (source signature_name secret : String) (event_id_of : Value → Result String)
    (request : Request) (w : World E) where
  Appends-nothing : Appends w w
  Appends-nothing = record {
    news = [];
    log = sym (append-nil w.db.webhook_log);
    orders = refl;
    outbox = refl;
  }

  Appends-Answer :
      (r : Result Response × World E)
      → Answer rt publisher settings iso source signature_name secret event_id_of request w r
      → Appends w r.1
  unfolding count
  Appends-Answer r (unsigned s a e) = rw e Appends-nothing
  Appends-Answer r (unreadable s a e) = rw e Appends-nothing
  Appends-Answer r (malformed x s p m e) = rw e Appends-nothing
  Appends-Answer r (unexpected x s p m e) = rw e Appends-nothing
  Appends-Answer r (duplicate v i s p k e) =
      rw e (record {
        news = [];
        log = sym (append-nil w.db.webhook_log);
        orders = refl;
        outbox = refl;
      })
  Appends-Answer r (accepted v i id s p k b e) = rw e (record {
    news = new_log source i v request.headers w ∷ [];
    log = refl;
    orders = refl;
    outbox = refl;
  })
  Appends-Answer r (refused v i x s p k b e) = rw e (record {
    news = new_log source i v request.headers w ∷ [];
    log = refl;
    orders = refl;
    outbox = refl;
  })

  Appends-served :
      Appends w
        (served rt publisher settings iso source signature_name secret event_id_of request w).1
  Appends-served =
      Appends-Answer _
        (handle-Answer rt publisher settings iso source signature_name secret event_id_of request w)

module _ {E : Type 0} (rt : Runtime) (publisher : Publisher E) (settings : Settings)
    (iso : ℕ → String) where
  pub Appends-receive :
      (m : Inbound) (w : World E) → Appends w (receive rt publisher settings iso m w).1
  unfolding receive
  Appends-receive (to_mercadolibre r) w =
      Appends-served rt publisher settings iso "mercadolibre" "X-Signature"
        settings.ml_webhook_secret (ml_event_id rt) r w
  Appends-receive (to_paris r) w =
      Appends-served rt publisher settings iso "paris" signature_header settings.paris_api_secret
        (paris_event_id rt) r w
