-- ===== src/Scripts/InitPubsub.antt =====
-- scripts/init_pubsub.py: the topics and subscriptions of the broker.
pub mod Again
use retail_order_sync_hub.Base.{String, Bool, true, false, List, [], ◌∷◌, ◌≡◌, if◌then◌else◌}
use retail_order_sync_hub.Config.{Settings}
use retail_order_sync_hub.Exec.{Exc, Result, ok, err, Exec, pure, raise, try, ◌>>=◌, ◌>>◌}

-- What the script creates, by its path: a topic, and a subscription to a topic.
pub data Resource : Type 0 where
  topic : String → Resource
  subscription : String → String → Resource

-- `PublisherClient` and `SubscriberClient`: paths of a project, `create_topic` and `create_subscription`,
-- and whether an exception is `AlreadyExists`.
pub record Broker (E : Type 0) : Type 0 where
  pub topic_path : String → String → String
  pub subscription_path : String → String → String
  pub create : Resource → Exec E (Unit {0})
  pub is_already_exists : Exc → Bool

-- What is there stays, a creation that is accepted or refused as existing leaves the resource there, and
-- one of a resource that is there is refused and changes nothing.
pub record IsRegistry {E : Type 0} (broker : Broker E) (has : Resource → E → Bool) : Type 0 where
  pub stays : (r s : Resource) (e : E) → has r e ≡ true → has r (broker.create s e).1 ≡ true
  pub accepted :
      (r : Resource) (e : E) → (broker.create r e).0 ≡ ok tt → has r (broker.create r e).1 ≡ true
  pub refused :
      (r : Resource) (e : E) (x : Exc)
      → (broker.create r e).0 ≡ err x
      → broker.is_already_exists x ≡ true
      → has r (broker.create r e).1 ≡ true
  pub is_refused :
      (r : Resource) (e : E)
      → has r e ≡ true
      → (x : Exc) × (broker.is_already_exists x ≡ true) × (broker.create r e ≡ (err x, e))

-- The topics with their subscriptions.
abbrev pub pairs_of : Settings → List (String × String)
pairs_of settings =
    (settings.pubsub_topic_events, settings.pubsub_sub_events)
    ∷ (settings.pubsub_topic_dlq, settings.pubsub_sub_dlq)
    ∷ (settings.pubsub_topic_sync_dlq, settings.pubsub_sub_sync_dlq)
    ∷ []

module _ {E : Type 0} (broker : Broker E) where
  -- except AlreadyExists
  abbrev unless_exists : Exc → Exec E (Unit {0})
  unless_exists x = if broker.is_already_exists x then pure tt else raise x

  unfoldable pub ensure : Resource → Exec E (Unit {0})
  ensure r = try (broker.create r) unless_exists

  -- The loop over the pairs of a topic and a subscription.
  unfoldable pub ensure_pairs : String → List (String × String) → Exec E (Unit {0})
  unfolding ensure
  ensure_pairs project [] = pure tt
  ensure_pairs project ((t, s) ∷ pairs) = do
    let path = broker.topic_path project t
    ensure (topic path)
    ensure (subscription (broker.subscription_path project s) path)
    ensure_pairs project pairs

  unfoldable pub init_pubsub : Settings → Exec E (Unit {0})
  unfolding ensure_pairs
  init_pubsub settings = ensure_pairs settings.pubsub_project_id (pairs_of settings)
