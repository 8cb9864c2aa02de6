-- ===== src/Outbox/Invariant/Inserted.antt =====
-- `enqueue_orders` preserves the invariant of the outbox.
use mathlib.Core.Path.{subst}
use retail_order_sync_hub.Base.{
  ℕ, ◌+◌, ◌<◌, String, List, [], ◌∷◌, ◌++◌, All, All-append, All-mono, ◌≢◌, refl, sym, inl, inr,
  Bool-cases, if◌then◌else◌, arith,
}
use retail_order_sync_hub.Model.{OutboxEntry}
use retail_order_sync_hub.World.{World}
use retail_order_sync_hub.World.Keeps.{Preserves, Preserves-pure, Preserves-bind}
use retail_order_sync_hub.World.Session.{session_scope_ok}
use retail_order_sync_hub.Adapters.Dto.{OrderDto}
use retail_order_sync_hub.Outbox.Queue.{queue}
use retail_order_sync_hub.Outbox.Enqueue.{
  new_entry, insert_entry, enqueue_targets, enqueue_all, enqueue_orders,
}
use retail_order_sync_hub.Outbox.Enqueue.Growth.{Grows-all}
use retail_order_sync_hub.Outbox.Enqueue.Insert.{
  is_taken, insert_entry-taken, insert_entry-free, insert_entry-HasUniqueKeys,
}
use retail_order_sync_hub.Outbox.Processor.Steps.{HasUniqueIds}
use retail_order_sync_hub.Outbox.Invariant.{IsConsistent, IsValid}

HasUniqueIds-append :
    (table : List OutboxEntry) (row : OutboxEntry)
    → HasUniqueIds table
    → All (λ s. s.id < row.id) table
    → HasUniqueIds (table ++ row ∷ [])
HasUniqueIds-append [] row u h = (tt, tt)
HasUniqueIds-append (r ∷ table) row (new, u) (lt, h) = (
  All-append (λ s. s.id ≢ r.id) table (row ∷ []) new ((λ e. omega (arith, e)), tt),
  HasUniqueIds-append table row u h,
)

later :
    (n : ℕ) (table : List OutboxEntry) → All (λ r. r.id < n) table → All (λ r. r.id < n + 1) table
later n table h = All-mono (λ r. r.id < n) (λ r. r.id < n + 1) table (λ r lt. omega arith) h

module _ {E : Type 0} (max : ℕ) (positive : 0 < max) where
  abbrev pub Holds : World E → Type 0
  Holds w = IsValid max (queue w)

  Preserves-insert :
      (order : OrderDto) (target : String) → Preserves Holds (insert_entry order target)
  Preserves-insert order target = record { holds = inserted }
    where
      inserted : (w : World E) → Holds w → Holds (insert_entry order target w).1
      inserted w v = elim (Bool-cases (is_taken order target w)) [
        | inl taken ↦ rw (insert_entry-taken order target w taken) (record {
          consistent = v.consistent;
          drawn = later w.seq.outbox w.db.outbox v.drawn;
          unique_ids = v.unique_ids;
          unique_keys = v.unique_keys;
        })
        | inr free ↦
            let row = new_entry order target w.seq.outbox w.clock in
            let keys = insert_entry-HasUniqueKeys order target w v.unique_keys in
            let keys' = rw (insert_entry-free order target w free) at keys in
            rw (insert_entry-free order target w free) (record {
              consistent =
                  All-append (IsConsistent max) w.db.outbox (row ∷ []) v.consistent
                    ((positive, ((λ e. refl), (λ e. refl))), tt);
              drawn =
                  All-append (λ r. r.id < w.seq.outbox + 1) w.db.outbox (row ∷ [])
                    (later w.seq.outbox w.db.outbox v.drawn) (omega arith, tt);
              unique_ids = HasUniqueIds-append w.db.outbox row v.unique_ids v.drawn;
              unique_keys = keys';
            })
      ]

  Preserves-targets :
      (order : OrderDto) (targets : List String) (n : ℕ)
      → Preserves Holds (enqueue_targets order targets n)
  unfolding enqueue_targets
  Preserves-targets order [] n = Preserves-pure Holds n
  Preserves-targets order (target ∷ targets) n =
      Preserves-bind Holds (insert_entry order target)
        (λ new. enqueue_targets order targets (if new then n + 1 else n))
        (Preserves-insert order target)
        (λ new. Preserves-targets order targets (if new then n + 1 else n))

  Preserves-all :
      (orders : List OrderDto) (targets : List String) (n : ℕ)
      → Preserves Holds (enqueue_all orders targets n)
  unfolding enqueue_all
  Preserves-all [] targets n = Preserves-pure Holds n
  Preserves-all (order ∷ orders) targets n =
      Preserves-bind Holds (enqueue_targets order targets n) (enqueue_all orders targets)
        (Preserves-targets order targets n) (λ m. Preserves-all orders targets m)

  pub Preserves-enqueue :
      (orders : List OrderDto) (targets : List String)
      → Preserves Holds (enqueue_orders orders targets)
  unfolding enqueue_orders
  Preserves-enqueue orders targets = record {
    holds = λ w v.
        subst (λ r. IsValid max (queue r.1))
          (sym (
            session_scope_ok (enqueue_all orders targets 0) w
              (Grows-all orders targets 0 w).counted))
          ((Preserves-all orders targets 0).holds w v);
  }
