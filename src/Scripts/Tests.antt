-- ===== src/Scripts/Tests.antt =====
-- Concrete runs of the scripts.
use retail_order_sync_hub.Base.{
  ℕ, ◌+◌, ◌≡◌, ◌≢◌, ℤ, pos, String, ◌==◌, string_eq, Bool, true, false, ◌&&◌, ◌||◌, some, List, [],
  ◌∷◌, refl, inl, inr, Bool-cases, eq_refl, if◌then◌else◌,
}
use retail_order_sync_hub.Json.{Value, int, str}
use retail_order_sync_hub.Config.{default_settings}
use retail_order_sync_hub.Services.{Runtime, Publisher, outside}
use retail_order_sync_hub.Signing.{sign_payload}
use retail_order_sync_hub.Model.{OutboxEntry, Status}
use retail_order_sync_hub.Exec.{
  Exc, other, exc_text, runtime_error, ok, err, pure, lift, raise, ◌>>=◌,
}
use retail_order_sync_hub.Adapters.Dto.{order_from_payload}
use retail_order_sync_hub.Outbox.Processor.{
  Outcome, Adapters, adapter_of, attempt, process_entry, base_delay,
}
use retail_order_sync_hub.Mcp.WriteTools.{reset_row}
use retail_order_sync_hub.Fixtures.{
  runtime, publisher, random, random-IsUniform, good_adapter, world,
}
use retail_order_sync_hub.Scripts.{Dice}
use retail_order_sync_hub.Scripts.SyncDemo.{pending_entry, make_pending_entry, start_attempts}
use retail_order_sync_hub.Scripts.FloodDlq.{Draw, dlq_entry, make_dlq_entry, draw}
use retail_order_sync_hub.Odoo.Client.{
  Values, Rpc, KeepsRecords, value_of, upsert, write_or_create, upsert_again,
}
use retail_order_sync_hub.Webhook.Receiver.{Request, received, paris}
use retail_order_sync_hub.Scripts.InitPubsub.{
  Resource, topic, subscription, Broker, IsRegistry, ensure, ensure_pairs, init_pubsub,
}
use retail_order_sync_hub.Scripts.SendWebhooks.{demo_webhook}
use retail_order_sync_hub.Scripts.SendWebhooks.Accepted.{Takes, demo_event, demo_webhook-accepted}
use retail_order_sync_hub.Scripts.Undeliverable.{Rounds, make_dlq_entry_undeliverable}

abbrev dice : Dice ℕ
dice = record {
  randint = λ lo hi e. (ok lo, e);
  amount = λ lo hi e. (ok (int (pos lo)), e);
  choice = λ texts e. (ok "boom", e);
}

abbrev paris_only : Adapters ℕ
paris_only = ("paris", good_adapter) ∷ []

abbrev drawn : Draw
drawn = record {
  total_amount = int (pos 15000);
  sku = 1000;
  qty = 1;
  unit_price = int (pos 5000);
  minutes = 5;
  error = "boom";
}

-- A dead letter for Paris.
abbrev flooded : OutboxEntry
flooded = dlq_entry 10000 "paris" 50 drawn

flooded_made : (make_dlq_entry dice 10000 "paris" 50 0).0 ≡ ok flooded
unfolding make_dlq_entry draw ◌>>=◌ pure
flooded_made = refl

-- What the first processing after a replay makes of it: it waits again.
abbrev waiting : OutboxEntry
waiting = record (reset_row 60 flooded) {
  attempts = 1;
  error_log = some "1 validation error";
  next_attempt_at = 2500100;
}

flooded_again :
    (process_entry runtime random publisher default_settings paris_only 100
      (reset_row 60 flooded)
      (world 0)).0
    ≡ ok (waiting, Outcome.retry)
unfolding process_entry adapter_of ◌>>=◌ order_from_payload base_delay exc_text
flooded_again = refl

make_dlq_entry_undeliverable_example : Outcome.retry ≢ Outcome.done
make_dlq_entry_undeliverable_example =
    make_dlq_entry_undeliverable runtime random publisher default_settings paris_only
      random-IsUniform dice 10000 "paris" 50 0 60 waiting Outcome.retry flooded_made
      (Rounds.first 100 (world 0) waiting Outcome.retry flooded_again)

-- The second entry of sync_demo starts one failure before the limit.
abbrev near : OutboxEntry
near = pending_entry 700001 "mercadolibre" 4 100 1000 1

near_made :
    (make_pending_entry dice default_settings "mercadolibre" 100 700001
      (start_attempts default_settings 1)
      0).0
    ≡ ok near
unfolding make_pending_entry start_attempts ◌>>=◌ pure
near_made = refl

abbrev near_error : String
near_error = "no adapter registered for 'mercadolibre'"

near_fails :
    (attempt runtime random publisher default_settings paris_only 200 near (world 0)).0
    ≡ err (runtime_error near_error)
unfolding attempt adapter_of raise
near_fails = refl

abbrev near_dead : OutboxEntry
near_dead = record near { attempts = 5; error_log = some near_error; status = Status.dlq }

near_dies :
    (process_entry runtime random publisher default_settings paris_only 200 near (world 0)).0
    ≡ ok (near_dead, Outcome.dlq)
unfolding process_entry adapter_of ◌>>=◌ outside exc_text
near_dies = refl

-- An ERP that finds the records that it has, and creates the record 7.
abbrev erp : Rpc (List ℤ)
erp = record {
  uid = pos 2;
  search = λ model field v ids. (ok ids, ids);
  write = λ model ids values e. (ok tt, e);
  create = λ model values e. (ok (pos 7), pos 7 ∷ []);
  reference = λ module_name name e. (ok (pos 9), e);
}

erp-KeepsRecords : KeepsRecords erp
erp-KeepsRecords = record {
  reads_only = λ model field v e. refl;
  written = λ model field v values id ids e has found. (refl, found);
  creates = λ model field v values id e has missing made. cc;
}

abbrev mug : Values
mug = ("default_code", str "ROSH-MUG-002") ∷ ("name", str "Taza Retail Demo") ∷ []

mug_created : (upsert erp "product.product" "default_code" mug []).0 ≡ ok (pos 7)
unfolding upsert write_or_create value_of ◌>>=◌ pure lift
mug_created = refl

upsert_again_example :
    let e' = (upsert erp "product.product" "default_code" mug []).1 in
    upsert erp "product.product" "default_code" mug e' ≡ (ok (pos 7), e')
upsert_again_example =
    upsert_again erp erp-KeepsRecords "product.product" "default_code" mug [] mug_created

-- A broker that holds a set of resources.
abbrev same : Resource → Resource → Bool
same (topic t) (topic u) = t == u
same (subscription s t) (subscription r u) = s == r && t == u
same _ _ = false

same_refl : (r : Resource) → same r r ≡ true
same_refl (topic t) = eq_refl t
same_refl (subscription s t) = rw (eq_refl s) (rw (eq_refl t) refl)

abbrev is_exists : Exc → Bool
is_exists (other t) = true
is_exists _ = false

abbrev broker : Broker (Resource → Bool)
broker = record {
  topic_path = λ project t. t;
  subscription_path = λ project s. s;
  create = λ r e. if e r then (err (other "exists"), e) else (ok tt, λ s. e s || same s r);
  is_already_exists = is_exists;
}

broker-IsRegistry : IsRegistry broker (λ r e. e r)
broker-IsRegistry = record {
  stays = λ r s e there. elim (Bool-cases (e s)) [
    | inl old ↦ rw old there
    | inr new ↦ rw new (rw there refl)
  ];
  accepted = λ r e done. elim (Bool-cases (e r)) [
    | inl old ↦ absurd (cc (rw old at done))
    | inr new ↦ rw new (rw new (rw (same_refl r) refl))
  ];
  refused = λ r e x lost known. elim (Bool-cases (e r)) [
    | inl old ↦ rw old old
    | inr new ↦ absurd (cc (rw new at lost))
  ];
  is_refused = λ r e there. (other "exists", refl, rw there refl);
}

-- A second run finds everything there.
second_run :
    (init_pubsub broker default_settings (init_pubsub broker default_settings (λ r. false)).1).0
    ≡ ok tt
unfolding init_pubsub ensure_pairs ensure ◌>>=◌ pure
second_run = refl

first_run : (init_pubsub broker default_settings (λ r. false)).0 ≡ ok tt
unfolding init_pubsub ensure_pairs ensure ◌>>=◌ pure
first_run = refl

-- A receiver that reads the event of one token.
abbrev reader : Runtime
reader = record runtime { loads = λ body. ok (demo_event "0a1b") }

abbrev open_broker : Publisher ℕ
open_broker = record { publish = λ topic message attributes n. (ok "m", n + 1) }

open_broker-Takes : Takes open_broker
open_broker-Takes = record { taken = λ topic message attributes e. ("m", refl) }

abbrev hook_request : Request
hook_request = record { body = 1 ∷ []; header = λ name. some "change-me"; headers = Value.null }

demo_webhook-accepted_example :
    (again : Bool) × ((paris reader open_broker default_settings
        (λ n. "now")
        hook_request
        (world 0)).0
      ≡ ok (received "demo-0a1b" again))
unfolding demo_webhook sign_payload
demo_webhook-accepted_example =
    demo_webhook-accepted reader open_broker default_settings (λ n. "now") (λ v. 1 ∷ []) "0a1b"
      hook_request (world 0) refl open_broker-Takes refl refl
