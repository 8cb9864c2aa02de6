-- ===== src/Reconciler.antt =====
-- src/reconciler/reconcile.py, and the loop of src/reconciler/__main__.py
pub mod Drift
mod Tests
use retail_order_sync_hub.Base.{
  ℕ, zero, suc, ◌+◌, ℤ, String, ◌==◌, string_eq, Bool, true, false, ◌&&◌, Option, none, some,
  is_some, List, [], ◌∷◌, select, cat, eqb, if◌then◌else◌,
}
use retail_order_sync_hub.Json.{Value, null, bool, int, float, str, arr, obj}
use retail_order_sync_hub.Odoo.{Odoo}
use retail_order_sync_hub.Model.{Order}
use retail_order_sync_hub.Services.{outside}
use retail_order_sync_hub.World.{World, count}
use retail_order_sync_hub.World.Session.{session_scope}
use retail_order_sync_hub.Exec.{Exec, pure, gets, modify, ◌>>=◌, ◌>>◌}

-- `_delivered_marker`
unfoldable pub delivered_marker : String → String
delivered_marker status = cat ("[sync] marketplace status: " ∷ status ∷ [])

-- v == text
abbrev pub is_text : String → Value → Bool
is_text text (str s) = s == text
is_text text _ = false

-- The rows of the query.
unfoldable pub is_delivered : Order → Bool
is_delivered row = row.status == "delivered" && is_some row.odoo_order_id

module _ {E : Type 0} (odoo : Odoo E) where
  -- What follows the read of the note.
  unfoldable pub write_unless_same : ℤ → String → Option Value → Exec E Bool
  write_unless_same id desired none = pure false
  write_unless_same id desired (some note) =
      if is_text desired note then pure false else (do odoo.write_note id desired; pure true)

  unfoldable pub reconcile_to_odoo : ℤ → String → Exec E Bool
  unfolding write_unless_same delivered_marker
  reconcile_to_odoo id status = do
    note ← odoo.read_note id
    write_unless_same id (delivered_marker status) note

  unfoldable pub reconcile_id : String → Option ℤ → Exec (World E) Bool
  unfolding outside
  reconcile_id status none = pure false
  reconcile_id status (some id) = outside (reconcile_to_odoo id status)

  unfoldable pub reconcile_row : Order → Exec (World E) Bool
  unfolding reconcile_id
  reconcile_row row = reconcile_id row.status row.odoo_order_id

  -- The loop, with the drift so far.
  unfoldable pub reconcile_rows : List Order → ℕ → Exec (World E) ℕ
  unfolding reconcile_row
  reconcile_rows [] drift = pure drift
  reconcile_rows (row ∷ rows) drift = do
    changed ← reconcile_row row
    reconcile_rows rows (if changed then drift + 1 else drift)

  -- _drift_counter.add(drift), as so many steps, if there is any
  unfoldable pub count_drift : ℕ → World E → World E
  unfolding count
  count_drift zero w = w
  count_drift (suc n) w = count_drift n (count "reconciliation_drift_detected_total" [] w)

  unfoldable pub reconcile_once : Exec (World E) ℕ
  unfolding count_drift reconcile_rows is_delivered
  reconcile_once = do
    rows ← gets (λ (w : World E). select is_delivered w.db.orders)
    drift ← reconcile_rows rows 0
    modify (count_drift drift)
    pure drift

  -- So many rounds of `run_forever`: an exception ends the loop.
  unfoldable pub reconcile_cycles : ℕ → Exec (World E) (Unit {0})
  unfolding reconcile_once
  reconcile_cycles zero = pure tt
  reconcile_cycles (suc n) = do drift ← session_scope reconcile_once; reconcile_cycles n
