-- ===== src/Webhook/Publisher.antt =====
-- src/webhook_receiver/publisher.py: the publisher of Pub/Sub, on the client of the broker.
use retail_order_sync_hub.Base.{ℕ, String}
use retail_order_sync_hub.Config.{Settings}
use retail_order_sync_hub.Services.{Bytes, Attributes, Publisher}
use retail_order_sync_hub.Exec.{Exec, ◌>>=◌}

-- `PublisherClient`: the path of a topic of a project, the publication to a path, which gives a future,
-- and the result of a future within some seconds.
pub record PubSubClient (E Future : Type 0) : Type 0 where
  pub topic_path : String → String → String
  pub publish : String → Bytes → Attributes → Exec E Future
  pub result : Future → ℕ → Exec E String

-- `PubSubPublisher`
unfoldable pub pub_sub_publisher :
    {E Future : Type 0} → PubSubClient E Future → Settings → Publisher E
pub_sub_publisher client settings = record {
  publish = λ topic message attributes. do
    future ← client.publish (client.topic_path settings.pubsub_project_id topic) message attributes
    client.result future 10;
}
