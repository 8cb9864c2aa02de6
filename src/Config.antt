-- ===== src/Config.antt =====
-- `Settings` of src/common/config.py, with the values that it takes when the environment sets none.
-- Durations that the source writes as floating-point seconds are milliseconds here.
use retail_order_sync_hub.Base.{ℕ, String, Bool, false, [], ◌∷◌, cat, decimal}

pub record Settings : Type 0 where
  pub env : String
  pub log_level : String
  pub app_db_host : String
  pub app_db_port : ℕ
  pub app_db_user : String
  pub app_db_password : String
  pub app_db_name : String
  pub odoo_url : String
  pub odoo_db : String
  pub odoo_user : String
  pub odoo_password : String
  pub otel_exporter_otlp_endpoint : String
  pub otel_service_name : String
  pub ml_client_id : String
  pub ml_client_secret : String
  pub ml_redirect_uri : String
  pub ml_auth_base : String
  pub ml_api_base : String
  pub ml_refresh_skew_seconds : ℕ
  pub paris_api_key : String
  pub paris_api_secret : String
  pub paris_mock_db_path : String
  pub paris_base_url : String
  pub adapter_max_attempts : ℕ
  pub outbox_max_attempts : ℕ
  pub outbox_poll_interval_ms : ℕ
  pub reconciler_interval_ms : ℕ
  pub ml_webhook_secret : String
  pub pubsub_emulator_host : String
  pub pubsub_project_id : String
  pub pubsub_topic_events : String
  pub pubsub_sub_events : String
  pub pubsub_topic_dlq : String
  pub pubsub_sub_dlq : String
  pub pubsub_topic_sync_dlq : String
  pub pubsub_sub_sync_dlq : String
  pub mcp_static_tokens : String
  pub bq_project_id : String
  pub bq_location : String
  pub bq_bronze_dataset : String
  pub bq_silver_dataset : String
  pub bq_gold_dataset : String
  pub bq_batch_size : ℕ
  pub http_port : ℕ
  pub use_secret_manager : Bool
  pub gcp_project_id : String
  pub secret_manager_secrets : String

abbrev pub default_settings : Settings
default_settings = record {
  env = "local";
  log_level = "INFO";
  app_db_host = "localhost";
  app_db_port = 5433;
  app_db_user = "rosh";
  app_db_password = "change-me";
  app_db_name = "rosh";
  odoo_url = "http://localhost:8069";
  odoo_db = "odoo";
  odoo_user = "admin";
  odoo_password = "admin";
  otel_exporter_otlp_endpoint = "http://localhost:4317";
  otel_service_name = "retail-order-sync-hub";
  ml_client_id = "";
  ml_client_secret = "";
  ml_redirect_uri = "http://localhost:8000/oauth/mercadolibre/callback";
  ml_auth_base = "https://auth.mercadolibre.cl";
  ml_api_base = "https://api.mercadolibre.com";
  ml_refresh_skew_seconds = 300;
  paris_api_key = "change-me";
  paris_api_secret = "change-me";
  paris_mock_db_path = "paris_mock.db";
  paris_base_url = "http://localhost:9100";
  adapter_max_attempts = 4;
  outbox_max_attempts = 5;
  outbox_poll_interval_ms = 5000;
  reconciler_interval_ms = 900000;
  ml_webhook_secret = "change-me";
  pubsub_emulator_host = "localhost:8085";
  pubsub_project_id = "retail-order-sync-local";
  pubsub_topic_events = "marketplace.events";
  pubsub_sub_events = "marketplace.events.sub";
  pubsub_topic_dlq = "marketplace.dlq";
  pubsub_sub_dlq = "marketplace.dlq.sub";
  pubsub_topic_sync_dlq = "marketplace.sync.dlq";
  pubsub_sub_sync_dlq = "marketplace.sync.dlq.sub";
  mcp_static_tokens = "dev-token:orders.read,metrics.read";
  bq_project_id = "retail-order-sync-hub";
  bq_location = "US";
  bq_bronze_dataset = "bronze";
  bq_silver_dataset = "silver";
  bq_gold_dataset = "gold";
  bq_batch_size = 500;
  http_port = 8000;
  use_secret_manager = false;
  gcp_project_id = "";
  secret_manager_secrets = "PARIS_API_SECRET,ML_WEBHOOK_SECRET";
}

-- The property `app_db_dsn`.
pub app_db_dsn : Settings → String
app_db_dsn s = cat (
    "postgresql+psycopg://"
    ∷ s.app_db_user
    ∷ ":"
    ∷ s.app_db_password
    ∷ "@"
    ∷ s.app_db_host
    ∷ ":"
    ∷ decimal s.app_db_port
    ∷ "/"
    ∷ s.app_db_name
    ∷ [])
