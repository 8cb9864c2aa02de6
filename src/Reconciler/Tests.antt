-- ===== src/Reconciler/Tests.antt =====
-- A concrete ERP that keeps the notes as HTML, and cycles of the reconciler on it.
use retail_order_sync_hub.Base.{
  ℤ, pos, eq_ℤ, String, ◌==◌, string_eq, false, cat, some, [], ◌∷◌, length, select, All, ◌≡◌, refl,
  inl, inr, Bool-cases, if◌then◌else◌,
}
use retail_order_sync_hub.Json.{Value, str, null}
use retail_order_sync_hub.Odoo.{Odoo, RendersNotes}
use retail_order_sync_hub.Model.{Order}
use retail_order_sync_hub.World.{World}
use retail_order_sync_hub.Exec.{ok}
use retail_order_sync_hub.Fixtures.{world}
use retail_order_sync_hub.Reconciler.{
  delivered_marker, is_delivered, reconcile_once, reconcile_cycles,
}
use retail_order_sync_hub.Reconciler.Drift.{marker, written, RowIsOpen, drift_recurs}

abbrev Notes : Type 0
Notes = ℤ → Value

abbrev paragraph : String → String
paragraph text = cat ("<p>" ∷ text ∷ "</p>" ∷ [])

abbrev erp : Odoo Notes
erp = record {
  read_orders = λ states e. (ok [], e);
  read_lines = λ ids e. (ok [], e);
  read_products = λ ids e. (ok [], e);
  read_note = λ id e. (ok (some (e id)), e);
  write_note = λ id text e. (ok tt, λ i. if eq_ℤ i id then str (paragraph text) else e i);
}

erp-RendersNotes : RendersNotes erp paragraph
erp-RendersNotes = record {
  reads_only = λ id e. refl;
  accepts = λ id note e h. refl;
  renders = λ id i note e h. elim (Bool-cases (eq_ℤ i id)) [
    | inl same ↦ rw same refl
    | inr other ↦ rw other refl
  ];
}

abbrev delivered_order : Order
delivered_order = record {
  internal_id = 1;
  odoo_order_id = some (pos 7);
  marketplace = "paris";
  marketplace_order_id = some "P1";
  status = "delivered";
  last_sync_at = some 100;
  created_at = 100;
  updated_at = 100;
}

abbrev before : World Notes
before = record {
  db = record (world 0).db { orders = delivered_order ∷ [] };
  seq = (world 0).seq;
  clock = (world 0).clock;
  metrics = [];
  env = λ id. null;
}

before_open : All (RowIsOpen erp before.env) (select is_delivered before.db.orders)
unfolding is_delivered
before_open = ((pos 7, refl, (null, refl, refl)), tt)

marker_rendered : (paragraph marker == marker) ≡ false
unfolding delivered_marker
marker_rendered = refl

drift_recurs_example :
    ((reconcile_cycles erp 3 before).0 ≡ ok tt)
    × ((reconcile_once erp (reconcile_cycles erp 3 before).1).0
        ≡ ok (length (select is_delivered before.db.orders)))
    × ((reconcile_once erp (reconcile_cycles erp 3 before).1).1.env
        ≡ written erp (select is_delivered before.db.orders) (reconcile_cycles erp 3 before).1.env)
drift_recurs_example =
    drift_recurs erp paragraph erp-RendersNotes marker_rendered 3 before before_open
