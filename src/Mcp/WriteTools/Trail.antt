-- ===== src/Mcp/WriteTools/Trail.antt =====
-- The audit trail of the write tools, and calls without the scope.
use retail_order_sync_hub.Base.{
  ℕ, ℤ, String, ◌==◌, string_eq, Bool, true, false, cat, prefix, List, [], ◌∷◌, ◌++◌, ◌≡◌, refl, ap,
  ◌∙◌, inl, inr, Option, none, some, int_of, find, if◌then◌else◌, arith,
}
use retail_order_sync_hub.Json.{Value, str, arr, items, dict}
use retail_order_sync_hub.Config.{Settings}
use retail_order_sync_hub.Model.{Order, OutboxEntry, McpAuditLog}
use retail_order_sync_hub.World.{World}
use retail_order_sync_hub.World.Session.{session_scope}
use retail_order_sync_hub.Exec.{
  permission_error, exc_text, Result, ok, err, Result-cases, Exec, pure, lift, ◌>>=◌,
}
use retail_order_sync_hub.Mcp.Auth.{require_scope, validate_token, has_scope}
use retail_order_sync_hub.Mcp.Audit.{
  Call, audit, audit_row, write_audit_lem, result_status, last_text, token_of, user_id_from_token,
  log_params, error_message,
}
use retail_order_sync_hub.Mcp.WriteTools.{
  Reply, replay_dlq_message, retry_failed_sync, drain_dlq, replay_row, replay_id, has_id,
  retry_order, order_of, drain, write_rows,
}

-- A call of one of the tools: its argument, its token, and the call as the wrapper sees it.
pub data Tool : Type 0 where
  replay retry : String → String → Call → Tool
  drain_all : Bool → String → Call → Tool

abbrev pub scope_of : Tool → String
scope_of (replay id token call) = "dlq.replay"
scope_of (retry id token call) = "outbox.retry"
scope_of (drain_all dry_run token call) = "dlq.admin"

abbrev pub name_of : Tool → String
name_of (replay id token call) = "replay_dlq_message"
name_of (retry id token call) = "retry_failed_sync"
name_of (drain_all dry_run token call) = "drain_dlq"

abbrev pub call_of : Tool → Call
call_of (replay id token call) = call
call_of (retry id token call) = call
call_of (drain_all dry_run token call) = call

abbrev pub token_arg : Tool → String
token_arg (replay id token call) = token
token_arg (retry id token call) = token
token_arg (drain_all dry_run token call) = token

abbrev as_text : Value → String
as_text (str s) = s
as_text v = ""

-- The caller: the named token, or the last positional argument if that is a text.
abbrev last_seen : String → List Value → String
last_seen s [] = s
last_seen s (v ∷ vs) = last_seen (as_text v) vs

abbrev named_or : Option String → String → String
named_or none s = s
named_or (some token) s = if token == "" then s else token

abbrev caller : Call → String
caller call =
    let token = named_or call.api_token (last_seen "" call.args) in
    if token == "" then "token:anonymous" else cat ("token:" ∷ prefix 16 token ∷ [])

abbrev snapshot : Call → Value
snapshot call = with_positional call.args
  where
    with_positional : List Value → Value
    with_positional [] = dict call.kwargs
    with_positional (v ∷ vs) = dict (call.kwargs ++ ("_args", arr (items (v ∷ vs))) ∷ [])

-- How a call ends, in words, and the text of its error.
abbrev ending : Result Reply → String
ending (ok reply) = "ok"
ending (err (permission_error text)) = "denied"
ending (err x) = "error"

abbrev error_of : Result Reply → Option String
error_of (ok reply) = none
error_of (err x) = some (exc_text x)

-- The row that a call with a result is to have.
abbrev pub recorded : Tool → Result Reply → ℕ → McpAuditLog
recorded t r now = record {
  timestamp = now;
  user_id = caller (call_of t);
  tool_name = name_of t;
  params_json = snapshot (call_of t);
  scope_used = some (scope_of t);
  result_status = ending r;
  error_message = error_of r;
}

last_seen-last_text :
    (s : String) (v : Value) (vs : List Value) → last_seen s (v ∷ vs) ≡ last_text (v ∷ vs)
unfolding last_text
last_seen-last_text s v [] = refl
last_seen-last_text s v (u ∷ vs) = last_seen-last_text (as_text v) u vs

caller_lem : (args : List Value) → last_seen "" args ≡ last_text args
unfolding last_text
caller_lem [] = refl
caller_lem (v ∷ vs) = last_seen-last_text "" v vs

error_of_lem : (r : Result Reply) → error_message r ≡ error_of r
unfolding error_message
error_of_lem (ok reply) = refl
error_of_lem (err x) = refl

module _ {E : Type 0} where
  log-session_scope :
      (m : Exec (World E) Reply) (w : World E)
      → (m w).1.db.mcp_audit_log ≡ w.db.mcp_audit_log
      → (session_scope m w).1.db.mcp_audit_log ≡ w.db.mcp_audit_log
  unfolding session_scope
  log-session_scope m w h = ground arith

  log-replay_row :
      (oid : ℤ) (row : Option OutboxEntry) (w : World E)
      → (replay_row oid row w).1.db.mcp_audit_log ≡ w.db.mcp_audit_log
  unfolding replay_row write_rows
  log-replay_row oid none w = refl
  log-replay_row oid (some row) w = ground arith

  log-retry_order :
      (id : String) (order : Option Order) (w : World E)
      → (retry_order id order w).1.db.mcp_audit_log ≡ w.db.mcp_audit_log
  unfolding retry_order write_rows
  log-retry_order id none w = refl
  log-retry_order id (some order) w = refl

  log-drain :
      (dry_run : Bool) (w : World E) → (drain dry_run w).1.db.mcp_audit_log ≡ w.db.mcp_audit_log
  unfolding drain write_rows
  log-drain true w = refl
  log-drain false w = refl

module _ {E : Type 0} (listing : List String → String) (settings : Settings) where
  unfoldable pub run : Tool → Exec (World E) Reply
  run (replay id token call) = replay_dlq_message listing settings id token call
  run (retry id token call) = retry_failed_sync listing settings id token call
  run (drain_all dry_run token call) = drain_dlq listing settings dry_run token call

  -- What the tool does behind its scope.
  unfoldable pub body : Tool → Exec (World E) Reply
  body (replay id token call) = replay_id id (int_of id)
  body (retry id token call) = session_scope (λ w. retry_order id (order_of id w.db.orders) w)
  body (drain_all dry_run token call) = session_scope (drain dry_run)

  -- Every tool is its body behind its scope, in the wrapper.
  pub run_lem :
      (t : Tool)
      → run t
        ≡ audit
            (scope_of t)
            (name_of t)
            (call_of t)
            (lift (require_scope listing settings (token_arg t) (scope_of t)) >>= (λ u. body t))
  unfolding run body replay_dlq_message retry_failed_sync drain_dlq
  run_lem (replay id token call) = refl
  run_lem (retry id token call) = refl
  run_lem (drain_all dry_run token call) = refl

  log-replay :
      (id : String) (oid : Option ℤ) (w : World E)
      → (replay_id id oid w).1.db.mcp_audit_log ≡ w.db.mcp_audit_log
  unfolding replay_id pure
  log-replay id none w = refl
  log-replay id (some oid) w =
      log-session_scope (λ w. replay_row oid (find (has_id oid) w.db.outbox) w) w
        (log-replay_row oid (find (has_id oid) w.db.outbox) w)

  -- The bodies leave the trail alone.
  log-body : (t : Tool) (w : World E) → (body t w).1.db.mcp_audit_log ≡ w.db.mcp_audit_log
  unfolding body
  log-body (replay id token call) w = log-replay id (int_of id) w
  log-body (retry id token call) w =
      log-session_scope (λ w. retry_order id (order_of id w.db.orders) w) w
        (log-retry_order id (order_of id w.db.orders) w)
  log-body (drain_all dry_run token call) w =
      log-session_scope (drain dry_run) w (log-drain dry_run w)

  abbrev pub guarded : Tool → Exec (World E) Reply
  guarded t = lift (require_scope listing settings (token_arg t) (scope_of t)) >>= (λ u. body t)

  log-guarded : (t : Tool) (w : World E) → (guarded t w).1.db.mcp_audit_log ≡ w.db.mcp_audit_log
  unfolding ◌>>=◌
  log-guarded t w =
      elim (Result-cases (require_scope listing settings (token_arg t) (scope_of t))) [
        | inl (u, granted) ↦ rw granted (log-body t w)
        | inr (x, denied) ↦ rw denied refl
      ]

  pub audit_lem :
      (scope name : String) (call : Call) (fn : Exec (World E) Reply) (w : World E)
      → (audit scope name call fn w).1 ≡ record (fn w).1 {
        db = record (fn w).1.db {
          mcp_audit_log =
              (fn w).1.db.mcp_audit_log
              ++ (if call.is_recorded
                  then audit_row scope name call (fn w).0 (fn w).1 ∷ []
                  else []);
        };
      }
  unfolding audit
  audit_lem scope name call fn w = write_audit_lem call.is_recorded _ (fn w).1

  result-audit :
      (scope name : String) (call : Call) (fn : Exec (World E) Reply) (w : World E)
      → (audit scope name call fn w).0 ≡ (fn w).0
  unfolding audit
  result-audit scope name call fn w = refl

  audit_row-recorded :
      (t : Tool) (r : Result Reply) (w : World E)
      → audit_row (scope_of t) (name_of t) (call_of t) r w ≡ recorded t r w.clock
  unfolding audit_row user_id_from_token log_params error_message token_of
  audit_row-recorded t r w = rw (caller_lem (call_of t).args, error_of_lem r) refl

  -- A call of a write tool, whatever comes of it, adds one row to the trail, behind the rows that are
  -- there, if the database takes the row, and none otherwise, which does not change what the caller
  -- gets: the row holds the tool, its scope, the caller by the first characters of the token, the
  -- positional parameters and the named ones but the token, and whether the call succeeded, was
  -- denied or failed, with the text of the error.
  pub run-audited :
      (t : Tool) (w : World E)
      → ((run t w).0 ≡ (guarded t w).0)
        × ((run t w).1.db.mcp_audit_log
            ≡ w.db.mcp_audit_log
              ++ (if (call_of t).is_recorded
                  then recorded t (guarded t w).0 (guarded t w).1.clock ∷ []
                  else []))
  run-audited t w =
      let scope = scope_of t in
      let name = name_of t in
      let call = call_of t in
      rw (run_lem t) (
        result-audit scope name call (guarded t) w,
        ap (λ (v : World E). v.db.mcp_audit_log) (audit_lem scope name call (guarded t) w)
            ∙ (rw (log-guarded t w, audit_row-recorded t (guarded t w).0 (guarded t w).1) refl),
      )

  -- A call whose token lacks the tool's scope is denied with a `PermissionError`, and changes nothing
  -- but the trail.
  pub run-denied :
      (t : Tool) (w : World E)
      → has_scope (scope_of t) (validate_token settings (token_arg t)) ≡ false
      → (result_status (run t w).0 ≡ "denied")
        × ((run t w).1.db ≡ record w.db { mcp_audit_log = (run t w).1.db.mcp_audit_log })
        × ((run t w).1.env ≡ w.env)
  unfolding require_scope ◌>>=◌
  run-denied t w h = rw (run_lem t) (
      rw (audit_lem (scope_of t) (name_of t) (call_of t) (guarded t) w) (
        rw (result-audit (scope_of t) (name_of t) (call_of t) (guarded t) w)
          (rw h (refl, refl, refl))))
