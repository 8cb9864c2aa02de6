-- ===== src/Scripts.antt =====
-- The command-line helpers of scripts/: what several of them use.
pub mod SyncDemo
pub mod FloodDlq
pub mod Undeliverable
pub mod Outcomes
pub mod InitPubsub
pub mod SeedOdoo
pub mod SendWebhooks
pub mod BackfillBronze
mod Tests
use retail_order_sync_hub.Base.{
  ℕ, ◌+◌, String, Bool, ◌||◌, any, List, [], ◌∷◌, ◌++◌, map, if◌then◌else◌,
}
use retail_order_sync_hub.Json.{Value}
use retail_order_sync_hub.Model.{OutboxEntry}
use retail_order_sync_hub.World.{World}
use retail_order_sync_hub.World.Session.{session_scope}
use retail_order_sync_hub.Exec.{Exc, ok, Exec, pure, raise, ◌>>=◌, ◌>>◌}
use retail_order_sync_hub.Outbox.Enqueue.{has_key}

-- `random`: `randint` of two bounds, `round(random.uniform(…, …), 2)` of two bounds, and `choice`.
pub record Dice (E : Type 0) : Type 0 where
  pub randint : ℕ → ℕ → Exec E ℕ
  pub amount : ℕ → ℕ → Exec E Value
  pub choice : List String → Exec E String

-- An entry of the outbox has its key already.
unfoldable pub has_entry : OutboxEntry → List OutboxEntry → Bool
has_entry row table = any (has_key row.aggregate_id row.target_adapter) table

module _ {E : Type 0} (violation : Exc) where
  -- The INSERT of a new row, which draws its id. `violation` is the database's exception for a row that
  -- breaks a unique constraint.
  unfoldable pub add_row : OutboxEntry → Exec (World E) (Unit {0})
  unfolding has_entry
  add_row row w =
      let w' = record w { seq = record w.seq { outbox = w.seq.outbox + 1 } } in
      if has_entry row w.db.outbox then raise violation w' else (
        ok tt,
        record w' {
          db = record w.db { outbox = w.db.outbox ++ record row { id = w.seq.outbox } ∷ [] };
        },
      )

  unfoldable pub add_rows : List OutboxEntry → Exec (World E) (Unit {0})
  unfolding add_row
  add_rows [] = pure tt
  add_rows (row ∷ rows) = do add_row row; add_rows rows

  -- with factory() as session: session.add_all(entries); session.commit()
  unfoldable pub add_all : List OutboxEntry → Exec (World E) (Unit {0})
  unfolding add_rows
  add_all rows = session_scope (add_rows rows)
