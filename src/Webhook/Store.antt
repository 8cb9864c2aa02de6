-- ===== src/Webhook/Store.antt =====
-- `DbWebhookStore` of src/webhook_receiver/store.py.
pub mod Dedup
use retail_order_sync_hub.Base.{
  ℕ, ◌+◌, String, ◌==◌, string_eq, Bool, true, false, ◌&&◌, ◌||◌, List, [], ◌∷◌, ◌++◌, any, cat,
  decimal, if◌then◌else◌,
}
use retail_order_sync_hub.Json.{Value}
use retail_order_sync_hub.Model.{WebhookLog, WebhookDedup}
use retail_order_sync_hub.World.{World}
use retail_order_sync_hub.World.Session.{session_scope}
use retail_order_sync_hub.Exec.{Exec, ok}

pub record RecordResult : Type 0 where
  pub is_new : Bool
  pub raw_ref : String

-- The primary key of `webhook_dedup`.
unfoldable pub is_event : String → String → WebhookDedup → Bool
is_event source event_id row = row.source == source && row.event_id == event_id

module _ {E : Type 0} where
  -- The insertion of the key, and of the bronze row if the key is new.
  unfoldable pub insert_event : String → String → Value → Value → Exec (World E) RecordResult
  unfolding is_event
  insert_event source event_id raw_body headers w =
      let id = w.seq.webhook_log in
      if any (is_event source event_id) w.db.webhook_dedup
      then (
        ok (record {
          is_new = false;
          raw_ref = cat ("webhook_log:" ∷ source ∷ ":" ∷ event_id ∷ []);
        }),
        w,
      )
      else (
        ok (record { is_new = true; raw_ref = cat ("webhook_log:" ∷ decimal id ∷ []) }),
        record w {
          seq = record w.seq { webhook_log = id + 1 };
          db = record w.db {
            webhook_dedup =
                w.db.webhook_dedup
                ++ record { source = source; event_id = event_id; first_seen_at = w.clock } ∷ [];
            webhook_log =
                w.db.webhook_log
                ++ record {
                  id = id;
                  event_id = event_id;
                  source = source;
                  received_at = w.clock;
                  raw_body = raw_body;
                  headers = headers;
                }
                  ∷ [];
          };
        },
      )

  unfoldable pub record_event : String → String → Value → Value → Exec (World E) RecordResult
  record_event source event_id raw_body headers =
      session_scope (insert_event source event_id raw_body headers)
