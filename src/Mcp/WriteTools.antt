-- ===== src/Mcp/WriteTools.antt =====
-- src/mcp_server/write_tools.py
pub mod Drain
pub mod Trail
pub mod Resets
pub mod Missed
use retail_order_sync_hub.Base.{
  ℕ, ◌+◌, ℤ, pos, eq_ℤ, String, ◌==◌, string_eq, nat_eq, Bool, true, false, ◌&&◌, ◌||◌, Option,
  none, some, List, [], ◌∷◌, ◌++◌, cat, map, length, find, select, order_by, str_int, int_of,
  isdigit, decimal, if◌then◌else◌,
}
use retail_order_sync_hub.Json.{Value, bool, int, str, arr, items, dict, opt_str}
use retail_order_sync_hub.Config.{Settings}
use retail_order_sync_hub.Model.{Order, OutboxEntry, Status, status_eq}
use retail_order_sync_hub.World.{World}
use retail_order_sync_hub.World.Session.{session_scope}
use retail_order_sync_hub.Exec.{Exc, Result, ok, err, Exec, pure, lift, gets, modify, ◌>>=◌, ◌>>◌}
use retail_order_sync_hub.Outbox.Processor.{flush}
use retail_order_sync_hub.Mcp.Auth.{require_scope}
use retail_order_sync_hub.Mcp.Audit.{Call, audit}

-- The text that a tool returns: a message, or `json.dumps` of a value.
pub data Reply : Type 0 where
  text : String → Reply
  json : Value → Reply

abbrev pub status_text : Status → String
status_text Status.pending = "pending"
status_text Status.done = "done"
status_text Status.dlq = "dlq"

-- The four assignments.
abbrev pub reset_row : ℕ → OutboxEntry → OutboxEntry
reset_row now row = record row {
  status = Status.pending;
  attempts = 0;
  next_attempt_at = now;
  error_log = none;
}

abbrev pub is_dlq : OutboxEntry → Bool
is_dlq row = row.status == Status.dlq

-- session.get(OutboxEntry, oid)
unfoldable pub has_id : ℤ → OutboxEntry → Bool
has_id oid row = eq_ℤ (pos row.id) oid

-- The order of `retry_failed_sync`: by internal id if the text is a number, by its id at the
-- marketplace otherwise.
unfoldable pub order_of : String → List Order → Option Order
order_of order_id orders =
    if isdigit order_id
    then find (λ (o : Order). is_number (int_of order_id) o.internal_id) orders
    else find (λ (o : Order). is_text o.marketplace_order_id) orders
  where
    is_number : Option ℤ → ℕ → Bool
    is_number none id = false
    is_number (some n) id = eq_ℤ (pos id) n

    is_text : Option String → Bool
    is_text none = false
    is_text (some id) = id == order_id

-- The entries that are reset.
unfoldable pub is_retried : String → OutboxEntry → Bool
is_retried aggregate_id row =
    row.aggregate_id == aggregate_id && (is_dlq row || row.status == Status.pending)

abbrev pub letter : OutboxEntry → Value
letter row = dict (
    ("outbox_id", int (pos row.id))
    ∷ ("aggregate_id", str row.aggregate_id)
    ∷ ("target_adapter", str row.target_adapter)
    ∷ ("attempts", int (pos row.attempts))
    ∷ ("error_log", opt_str row.error_log)
    ∷ [])

abbrev pub drained : Bool → List OutboxEntry → Reply
drained dry_run rows = json (
    dict (
      ("dry_run", bool dry_run)
      ∷ ("dlq_count", int (pos (length rows)))
      ∷ ("entries", arr (items (map letter rows)))
      ∷ (
        "message",
        str (
            cat (
              (if dry_run then "Would reset" else "Reset")
              ∷ " "
              ∷ decimal (length rows)
              ∷ " DLQ entries."
              ∷ [])),
      )
      ∷ []))

-- The dead letters, by id.
unfoldable pub dlq_rows : List OutboxEntry → List OutboxEntry
dlq_rows table = order_by (λ (r : OutboxEntry). r.id) (select is_dlq table)

module _ {E : Type 0} where
  -- The flush of the session: the rows that it has changed are written.
  unfoldable pub write_rows : List OutboxEntry → World E → World E
  write_rows rows w = record w { db = record w.db { outbox = flush w.clock rows w.db.outbox } }

  unfoldable pub replay_row : ℤ → Option OutboxEntry → Exec (World E) Reply
  replay_row oid none w = (ok (text (cat ("Outbox entry " ∷ str_int oid ∷ " not found." ∷ []))), w)
  replay_row oid (some row) w =
      if is_dlq row
      then (
        ok (
            json (
              dict (
                ("replayed", bool true)
                ∷ ("outbox_id", int oid)
                ∷ (
                  "message",
                  str (
                      cat (
                        "Entry "
                        ∷ str_int oid
                        ∷ " reset to pending — will be picked up on next worker cycle."
                        ∷ [])),
                )
                ∷ []))),
        write_rows (reset_row w.clock row ∷ []) w,
      )
      else (
        ok (
            text (
              cat (
                "Outbox entry "
                ∷ str_int oid
                ∷ " is in status '"
                ∷ status_text row.status
                ∷ "', not 'dlq'. Nothing to replay."
                ∷ []))),
        w,
      )

  abbrev pub replay_id : String → Option ℤ → Exec (World E) Reply
  unfolding replay_row has_id
  replay_id outbox_id none =
      pure (text (cat ("Invalid outbox_id '" ∷ outbox_id ∷ "' — must be an integer." ∷ [])))
  replay_id outbox_id (some oid) =
      session_scope (λ w. replay_row oid (find (has_id oid) w.db.outbox) w)

  unfoldable pub retry_order : String → Option Order → Exec (World E) Reply
  unfolding is_retried
  retry_order order_id none w = (ok (text (cat ("Order '" ∷ order_id ∷ "' not found." ∷ []))), w)
  retry_order order_id (some order) w =
      let rows = select (is_retried (decimal order.internal_id)) w.db.outbox in
      (
        ok (
            json (
              dict (
                ("retried", bool true)
                ∷ ("order_id", str order_id)
                ∷ ("internal_id", int (pos order.internal_id))
                ∷ ("entries_reset", int (pos (length rows)))
                ∷ (
                  "message",
                  str (cat ("Order " ∷ decimal order.internal_id ∷ " re-queued for sync." ∷ [])),
                )
                ∷ []))),
        write_rows (map (reset_row w.clock) rows) w,
      )

  unfoldable pub drain : Bool → Exec (World E) Reply
  drain dry_run w =
      let rows = dlq_rows w.db.outbox in
      (
        ok (drained dry_run rows),
        if dry_run then w else write_rows (map (reset_row w.clock) rows) w,
      )

module _ {E : Type 0} (listing : List String → String) (settings : Settings) where
  unfoldable pub replay_dlq_message : String → String → Call → Exec (World E) Reply
  unfolding replay_id
  replay_dlq_message outbox_id api_token call = audit "dlq.replay" "replay_dlq_message" call (do
    lift (require_scope listing settings api_token "dlq.replay")
    replay_id outbox_id (int_of outbox_id))

  unfoldable pub retry_failed_sync : String → String → Call → Exec (World E) Reply
  retry_failed_sync order_id api_token call = audit "outbox.retry" "retry_failed_sync" call (do
    lift (require_scope listing settings api_token "outbox.retry")
    session_scope (λ w. retry_order order_id (order_of order_id w.db.orders) w))

  unfoldable pub drain_dlq : Bool → String → Call → Exec (World E) Reply
  drain_dlq dry_run api_token call = audit "dlq.admin" "drain_dlq" call (do
    lift (require_scope listing settings api_token "dlq.admin")
    session_scope (drain dry_run))
