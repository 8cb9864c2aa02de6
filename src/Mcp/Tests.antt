-- ===== src/Mcp/Tests.antt =====
-- Concrete calls of the write tools.
use retail_order_sync_hub.Base.{
  split, strip, ℕ, String, false, true, [], ◌∷◌, ◌++◌, ◌≡◌, refl, List, some,
}
use retail_order_sync_hub.Config.{Settings, default_settings}
use retail_order_sync_hub.Model.{OutboxEntry, Status}
use retail_order_sync_hub.World.{World}
use retail_order_sync_hub.Fixtures.{entry_row, outbox_world}
use retail_order_sync_hub.Mcp.Auth.{
  has_scope, validate_token, scopes_in, token_scopes, add_pairs, add_pair,
}
use retail_order_sync_hub.Mcp.Audit.{Call, result_status}
use retail_order_sync_hub.Mcp.WriteTools.Trail.{
  Tool, replay, guarded, recorded, run, run-audited, run-denied,
}

abbrev listing : List String → String
listing granted = "none"

abbrev call : Call
call = record { args = []; kwargs = []; api_token = some "stranger"; is_recorded = true }

abbrev replay_one : Tool
replay_one = replay "1" "stranger" call

abbrev dead : OutboxEntry
dead = record (entry_row 1 "paris" 5) { status = Status.dlq }

abbrev dead_world : World ℕ
dead_world = outbox_world 0 (dead ∷ [])

run-audited_example :
    ((run listing default_settings replay_one dead_world).0
      ≡ (guarded listing default_settings replay_one dead_world).0)
    × ((run listing default_settings replay_one dead_world).1.db.mcp_audit_log
        ≡ []
          ++ recorded replay_one
              (guarded listing default_settings replay_one dead_world).0
              (guarded listing default_settings replay_one dead_world).1.clock
            ∷ [])
run-audited_example = run-audited listing default_settings replay_one dead_world

-- No settings, no tokens.
abbrev no_tokens : Settings
no_tokens = record default_settings { mcp_static_tokens = "" }

stranger : has_scope "dlq.replay" (validate_token no_tokens "stranger") ≡ false
unfolding validate_token has_scope scopes_in token_scopes add_pairs split strip add_pair
stranger = refl

run-denied_example :
    (result_status (run listing no_tokens replay_one dead_world).0 ≡ "denied")
    × ((run listing no_tokens replay_one dead_world).1.db ≡ record dead_world.db {
      mcp_audit_log = (run listing no_tokens replay_one dead_world).1.db.mcp_audit_log;
    })
    × ((run listing no_tokens replay_one dead_world).1.env ≡ dead_world.env)
run-denied_example = run-denied listing no_tokens replay_one dead_world stranger
