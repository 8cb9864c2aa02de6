-- ===== src/Model.antt =====
-- The operational tables of src/common/models.py: one record for each mapped class, and the
-- database that holds them. Times are microseconds since the epoch; a nullable column is an
-- `Option`. The rows of a table stand in the order of insertion.
use retail_order_sync_hub.Base.{
  ℕ, ℤ, String, Bool, true, false, Option, List, [], Eq, string_eq, ◌≡◌, ◌↔◌, arith,
}
use retail_order_sync_hub.Json.{Value}

pub record WebhookLog : Type 0 where
  pub id : ℕ
  pub event_id : String
  pub source : String
  pub received_at : ℕ
  pub raw_body : Value
  pub headers : Value

pub record WebhookDedup : Type 0 where
  pub source : String
  pub event_id : String
  pub first_seen_at : ℕ

pub record Order : Type 0 where
  pub internal_id : ℕ
  pub odoo_order_id : Option ℤ
  pub marketplace : String
  pub marketplace_order_id : Option String
  pub status : String
  pub last_sync_at : Option ℕ
  pub created_at : ℕ
  pub updated_at : ℕ

-- The values of the column `outbox.status`.
pub data Status : Type 0 where
  pending done dlq : Status

abbrev pub eq_status : Status → Status → Bool
eq_status pending pending = true
eq_status done done = true
eq_status dlq dlq = true
eq_status _ _ = false

pub eq_status_iff : (a b : Status) → (eq_status a b ≡ true) ↔ (a ≡ b)
eq_status_iff pending pending = ground arith
eq_status_iff done done = ground arith
eq_status_iff dlq dlq = ground arith
eq_status_iff pending done = ground arith
eq_status_iff pending dlq = ground arith
eq_status_iff done pending = ground arith
eq_status_iff done dlq = ground arith
eq_status_iff dlq pending = ground arith
eq_status_iff dlq done = ground arith

instance abbrev pub status_eq : Eq Status
status_eq = record { same = eq_status; same_iff = eq_status_iff }

pub record OutboxEntry : Type 0 where
  pub id : ℕ
  pub aggregate_type : String
  pub aggregate_id : String
  pub payload : Value
  pub target_adapter : String
  pub status : Status
  pub attempts : ℕ
  pub next_attempt_at : ℕ
  pub error_log : Option String
  pub created_at : ℕ
  pub updated_at : ℕ

pub record OAuthToken : Type 0 where
  pub provider : String
  pub access_token : String
  pub refresh_token : Option String
  pub expires_at : Option ℕ

pub record McpAuditLog : Type 0 where
  pub timestamp : ℕ
  pub user_id : String
  pub tool_name : String
  pub params_json : Value
  pub scope_used : Option String
  pub result_status : String
  pub error_message : Option String

pub record Db : Type 0 where
  pub webhook_log : List WebhookLog
  pub webhook_dedup : List WebhookDedup
  pub orders : List Order
  pub outbox : List OutboxEntry
  pub oauth_tokens : List OAuthToken
  pub mcp_audit_log : List McpAuditLog

-- The next value of each table's id sequence. A sequence does not go back when a transaction is
-- rolled back.
pub record Sequences : Type 0 where
  pub webhook_log : ℕ
  pub orders : ℕ
  pub outbox : ℕ

abbrev pub empty_db : Db
empty_db = record {
  webhook_log = [];
  webhook_dedup = [];
  orders = [];
  outbox = [];
  oauth_tokens = [];
  mcp_audit_log = [];
}
