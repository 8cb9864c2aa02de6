-- ===== src/Reconciler/Drift.antt =====
-- The reconciler at an ERP that does not give a note back as it was written.
use retail_order_sync_hub.Base.{
  ℕ, zero, suc, ◌+◌, ℤ, eq_ℤ, String, ◌==◌, string_eq, true, false, Option, none, some, List, [],
  ◌∷◌, length, select, All, All-mono, select-All, eq_iff, ◌≡◌, refl, ap, ◌∙◌, inl, inr, Bool-cases,
  arith,
}
use retail_order_sync_hub.Json.{Value, str}
use retail_order_sync_hub.Odoo.{Odoo, RendersNotes}
use retail_order_sync_hub.Model.{Order, Db}
use retail_order_sync_hub.Services.{outside}
use retail_order_sync_hub.World.{World, count}
use retail_order_sync_hub.World.Session.{session_scope_ok}
use retail_order_sync_hub.Exec.{Result, ok, pure, ◌>>=◌}
use retail_order_sync_hub.Reconciler.{
  delivered_marker, is_text, write_unless_same, reconcile_to_odoo, is_delivered, reconcile_id,
  reconcile_row, reconcile_rows, reconcile_once, reconcile_cycles, count_drift,
}

abbrev pub marker : String
marker = delivered_marker "delivered"

module _ {E : Type 0} (odoo : Odoo E) where
  -- The ERP has the order, and its note is not the marker.
  abbrev pub IsOpen : ℤ → E → Type 0
  IsOpen i e = (v : Value) × ((odoo.read_note i e).0 ≡ ok (some v)) × (is_text marker v ≡ false)

  abbrev pub RowIsOpen : E → Order → Type 0
  RowIsOpen e row = (id : ℤ) × (row.odoo_order_id ≡ some id) × IsOpen id e

  -- The marker is written to the note of each row's order, one after the other.
  abbrev pub write_marker : Option ℤ → E → E
  write_marker none e = e
  write_marker (some id) e = (odoo.write_note id marker e).1

  abbrev pub written : List Order → E → E
  written [] e = e
  written (row ∷ rows) e = written rows (write_marker row.odoo_order_id e)

  module _ (render : String → String) (renders : RendersNotes odoo render)
      (changed : (render marker == marker) ≡ false) where
    reconcile_open :
        (id : ℤ) (e : E)
        → IsOpen id e
        → ((odoo.write_note id marker e).0 ≡ ok tt)
          × (reconcile_to_odoo odoo id "delivered" e ≡ (ok true, (odoo.write_note id marker e).1))
    unfolding reconcile_to_odoo write_unless_same ◌>>=◌ pure
    reconcile_open id e (v, got, other) =
        let done = renders.accepts id marker e got in
        (done, rw got (rw other (rw (renders.reads_only id e) (rw done refl))))

    -- A write to an order leaves every open order open, that one too.
    IsOpen-write :
        (i id : ℤ) (e : E)
        → (odoo.write_note id marker e).0 ≡ ok tt
        → IsOpen i e
        → IsOpen i (odoo.write_note id marker e).1
    IsOpen-write i id e done (v, got, other) = elim (Bool-cases (eq_ℤ i id)) [
      | inl same ↦ (str (render marker), renders.renders id i marker e done ∙ rw same refl, changed)
      | inr differ ↦ (v, renders.renders id i marker e done ∙ rw differ got, other)
    ]

    -- What a run over rows has done: it counts so many drifts, it has written the marker for each row, it
    -- leaves the tables, and every open row is open.
    record Drifts (rows : List Order) (n : ℕ) (w : World E) (r : Result ℕ × World E) : Type 0 where
      counted : r.0 ≡ ok n
      wrote : r.1.env ≡ written rows w.env
      same_db : r.1.db ≡ w.db
      still : (row : Order) → RowIsOpen w.env row → RowIsOpen r.1.env row

    row_drifts :
        (row : Order) (w : World E)
        → row.status ≡ "delivered"
        → RowIsOpen w.env row
        → (e : E) × (reconcile_row odoo row w ≡ (ok true, record w { env = e }))
          × (write_marker row.odoo_order_id w.env ≡ e)
          × ((other : Order) → RowIsOpen w.env other → RowIsOpen e other)
    row_drifts row w delivered (id, is, open') =
        let (done, eq) = reconcile_open id w.env open' in
        (
          (odoo.write_note id marker w.env).1,
          unfold reconcile_row reconcile_id outside in rw delivered (rw is (rw eq refl)),
          rw is refl,
          λ other (i, its, o). (i, its, IsOpen-write i id w.env done o),
        )

    rows_drift :
        (rows : List Order) (drift : ℕ) (w : World E)
        → All (λ (row : Order). row.status ≡ "delivered") rows
        → All (RowIsOpen w.env) rows
        → Drifts rows (length rows + drift) w (reconcile_rows odoo rows drift w)
    unfolding reconcile_rows ◌>>=◌ pure
    rows_drift [] drift w delivered open' = record {
      counted = ap ok (omega arith);
      wrote = refl;
      same_db = refl;
      still = λ row o. o;
    }
    rows_drift (row ∷ rows) drift w (delivered, rest) (open', others) =
        let (e, eq, marks, keeps) = row_drifts row w delivered open' in
        let w' : World E = record w { env = e } in
        let run =
          rows_drift rows (drift + 1) w' rest
            (All-mono (RowIsOpen w.env) (RowIsOpen e) rows keeps others) in
        rw eq (record {
          counted = run.counted ∙ ap ok (omega arith);
          wrote = rw marks run.wrote;
          same_db = run.same_db;
          still = λ r o. run.still r (keeps r o);
        })

    select_delivered :
        (rows : List Order)
        → All (λ (row : Order). row.status ≡ "delivered") (select is_delivered rows)
    unfolding is_delivered
    select_delivered rows =
        All-mono (λ r. is_delivered r ≡ true) (λ (r : Order). r.status ≡ "delivered")
          (select is_delivered rows) (λ r h. ground (arith, eq_iff r.status "delivered"))
          (select-All is_delivered rows)

    db-count_drift : (n : ℕ) (w : World E) → (count_drift odoo n w).db ≡ w.db
    unfolding count_drift count
    db-count_drift zero w = refl
    db-count_drift (suc n) w = db-count_drift n _

    env-count_drift : (n : ℕ) (w : World E) → (count_drift odoo n w).env ≡ w.env
    unfolding count_drift count
    env-count_drift zero w = refl
    env-count_drift (suc n) w = env-count_drift n _

    once-Drifts :
        (w : World E)
        → All (RowIsOpen w.env) (select is_delivered w.db.orders)
        → Drifts
            (select is_delivered w.db.orders)
            (length (select is_delivered w.db.orders))
            w
            (reconcile_once odoo w)
    unfolding reconcile_once ◌>>=◌ pure
    once-Drifts w open' =
        let rows = select is_delivered w.db.orders in
        let run = rows_drift rows 0 w (select_delivered w.db.orders) open' in
        let n = length rows + 0 in
        rw run.counted (record {
          counted = ap ok (omega arith);
          wrote = env-count_drift n _ ∙ run.wrote;
          same_db = db-count_drift n _ ∙ run.same_db;
          still = λ row o. rw (env-count_drift n _) (run.still row o);
        })

    -- However many rounds of the reconciler have run, the next one counts every delivered order with an id
    -- in the ERP as a drift again, and writes the marker to the note of each. At first the ERP has all
    -- these orders, and no note of theirs is the marker; it takes each note and gives it back as
    -- rendered, which is another text for the marker, and it leaves the other notes as they are.
    pub drift_recurs :
        (n : ℕ) (w : World E)
        → All (RowIsOpen w.env) (select is_delivered w.db.orders)
        → ((reconcile_cycles odoo n w).0 ≡ ok tt)
          × ((reconcile_once odoo (reconcile_cycles odoo n w).1).0
              ≡ ok (length (select is_delivered w.db.orders)))
          × ((reconcile_once odoo (reconcile_cycles odoo n w).1).1.env
              ≡ written (select is_delivered w.db.orders) (reconcile_cycles odoo n w).1.env)
    unfolding reconcile_cycles ◌>>=◌ pure
    drift_recurs zero w open' = let run = once-Drifts w open' in (refl, run.counted, run.wrote)
    drift_recurs (suc n) w open' =
        let rows = select is_delivered w.db.orders in
        let run = once-Drifts w open' in
        let w' = (reconcile_once odoo w).1 in
        let same : select is_delivered w'.db.orders ≡ rows =
          ap (λ (db : Db). select is_delivered db.orders) run.same_db in
        let still : All (RowIsOpen w'.env) (select is_delivered w'.db.orders) =
          rw same (All-mono (RowIsOpen w.env) (RowIsOpen w'.env) rows run.still open') in
        let (ends, again, wrote) = drift_recurs n w' still in
        rw (session_scope_ok (reconcile_once odoo) w run.counted) (
          rw run.counted
            (ends, again ∙ ap (λ (l : List Order). ok (length l)) same, rw same at wrote))
