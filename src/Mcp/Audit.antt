-- ===== src/Mcp/Audit.antt =====
-- src/mcp_server/audit.py
use mathlib.Core.List.{append-nil}
use retail_order_sync_hub.Base.{
  String, ◌==◌, string_eq, Bool, true, false, ◌≡◌, refl, Option, none, some, List, [], ◌∷◌, ◌++◌,
  cat, prefix, if◌then◌else◌,
}
use retail_order_sync_hub.Json.{Value, str, arr, items, dict}
use retail_order_sync_hub.Model.{McpAuditLog}
use retail_order_sync_hub.World.{World}
use retail_order_sync_hub.World.Session.{session_scope}
use retail_order_sync_hub.Exec.{permission_error, other, exc_text, Result, ok, err, Exec, pure, try}

-- The arguments of a call: the positional ones, the named ones without the token, and the token if
-- it is named. `is_recorded` is whether the database takes the row of the call.
pub record Call : Type 0 where
  pub args : List Value
  pub kwargs : List (String × Value)
  pub api_token : Option String
  pub is_recorded : Bool

-- args[-1] if args and isinstance(args[-1], str) else ""
unfoldable pub last_text : List Value → String
last_text [] = ""
last_text (v ∷ []) = text_of v
  where
    text_of : Value → String
    text_of (str s) = s
    text_of _ = ""
last_text (v ∷ u ∷ vs) = last_text (u ∷ vs)

abbrev token_or : Option String → String → String
token_or none d = d
token_or (some token) d = if token == "" then d else token

unfoldable pub token_of : Call → String
unfolding last_text
token_of call = token_or call.api_token (last_text call.args)

-- `_user_id_from_token`
unfoldable pub user_id_from_token : String → String
user_id_from_token token =
    if token == "" then "token:anonymous" else cat ("token:" ∷ prefix 16 token ∷ [])

-- The snapshot of the parameters.
unfoldable pub log_params : Call → Value
log_params call = with_args call.args
  where
    with_args : List Value → Value
    with_args [] = dict call.kwargs
    with_args (v ∷ vs) = dict (call.kwargs ++ ("_args", arr (items (v ∷ vs))) ∷ [])

abbrev pub result_status : {A : Type 0} → Result A → String
result_status (ok a) = "ok"
result_status (err (permission_error t)) = "denied"
result_status (err e) = "error"

unfoldable pub error_message : {A : Type 0} → Result A → Option String
error_message (ok a) = none
error_message (err e) = some (exc_text e)

module _ {E : Type 0} where
  -- session.add, with the flush at the end of the session
  unfoldable pub add_audit : Bool → McpAuditLog → Exec (World E) (Unit {0})
  add_audit is_recorded row w =
      if is_recorded
      then (ok tt, record w { db = record w.db { mcp_audit_log = w.db.mcp_audit_log ++ row ∷ [] } })
      else (err (other "the row is not taken"), w)

  -- `_write_audit`: a session of its own, whose exception is passed over
  unfoldable pub write_audit : Bool → McpAuditLog → Exec (World E) (Unit {0})
  unfolding add_audit
  write_audit is_recorded row = try (session_scope (add_audit is_recorded row)) λ x. pure tt

  -- The trail has the row, or the database has not taken it and everything is as it was.
  pub write_audit_lem :
      (is_recorded : Bool) (row : McpAuditLog) (w : World E)
      → (write_audit is_recorded row w).1 ≡ record w {
        db = record w.db {
          mcp_audit_log = w.db.mcp_audit_log ++ (if is_recorded then row ∷ [] else []);
        };
      }
  unfolding write_audit session_scope try pure
  write_audit_lem true row w = refl
  write_audit_lem false row w = rw (append-nil w.db.mcp_audit_log) refl

module _ {E A : Type 0} where
  -- The row of a call with its result.
  unfoldable pub audit_row : String → String → Call → Result A → World E → McpAuditLog
  unfolding error_message
  audit_row scope tool_name call r w = record {
    timestamp = w.clock;
    user_id = user_id_from_token (token_of call);
    tool_name = tool_name;
    params_json = log_params call;
    scope_used = some scope;
    result_status = result_status r;
    error_message = error_message r;
  }

  -- The wrapper around a tool.
  unfoldable pub audit : String → String → Call → Exec (World E) A → Exec (World E) A
  audit scope tool_name call fn w =
      let (r, w') = fn w in
      (r, (write_audit call.is_recorded (audit_row scope tool_name call r w') w').1)
