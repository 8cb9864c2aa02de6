-- ===== src/Scripts/SendWebhooks.antt =====
-- scripts/send_webhooks.py: a burst of signed webhooks of Paris.
pub mod Accepted
use retail_order_sync_hub.Base.{
  ℕ, zero, suc, ◌+◌, String, Bool, eqb, List, [], ◌∷◌, cat, if◌then◌else◌,
}
use retail_order_sync_hub.Json.{Value, str, dict}
use retail_order_sync_hub.Services.{Runtime, Bytes}
use retail_order_sync_hub.Signing.{sign_payload, signature_header}
use retail_order_sync_hub.Exec.{Exec, pure, ◌>>=◌}

-- A request that the script sends: its body, and the header of the signature.
pub record Hook : Type 0 where
  pub body : Bytes
  pub header_name : String
  pub signature : String

module _ (rt : Runtime) where
  -- The webhook with the drawn text `token`; `dumps` is `json.dumps` with its default layout, encoded.
  unfoldable pub demo_webhook : (Value → Bytes) → String → String → Hook
  demo_webhook dumps secret token =
      let body = dumps (
        dict (("event_id", str (cat ("demo-" ∷ token ∷ []))) ∷ ("status", str "delivered") ∷ [])) in
      record {
        body = body;
        header_name = signature_header;
        signature = sign_payload rt secret body;
      }

-- `uuid.uuid4().hex[:12]`, and the status of the answer to a request
pub record Sender (E : Type 0) : Type 0 where
  pub token : Exec E String
  pub post : String → Hook → Exec E ℕ

module _ {E : Type 0} (rt : Runtime) (dumps : Value → Bytes) (sender : Sender E)
    (url secret : String) where
  -- `_post_webhook`
  unfoldable pub post_webhook : Exec E ℕ
  unfolding demo_webhook
  post_webhook = do token ← sender.token; sender.post url (demo_webhook rt dumps secret token)

  -- The loop of `main`, with the number sent so far. An exception of the request ends it.
  unfoldable pub send_webhooks : ℕ → ℕ → Exec E ℕ
  unfolding post_webhook
  send_webhooks zero sent = pure sent
  send_webhooks (suc n) sent = do
    status ← post_webhook
    send_webhooks n (if eqb status 200 then sent + 1 else sent)
