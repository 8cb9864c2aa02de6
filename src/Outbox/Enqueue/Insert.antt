-- ===== src/Outbox/Enqueue/Insert.antt =====
-- One insertion into the outbox: its two results, and what it does to the key (aggregate, target).
use retail_order_sync_hub.Base.{
  any-append, ℕ, ◌+◌, String, string_eq, Bool, true, false, List, [], ◌∷◌, ◌++◌, any, All, ◌≡◌,
  refl, inl, inr, str_int, Bool-cases, if◌then◌else◌, arith, eq_iff, eq_refl,
}
use retail_order_sync_hub.Model.{OutboxEntry}
use retail_order_sync_hub.World.{World}
use retail_order_sync_hub.Exec.{ok, ◌>>=◌}
use retail_order_sync_hub.Adapters.Dto.{OrderDto}
use retail_order_sync_hub.Outbox.Enqueue.{has_key, new_entry, insert_entry, enqueue_targets}

-- The table has a row for the order and the target.
abbrev pub IsQueued : OrderDto → String → List OutboxEntry → Type 0
IsQueued order target table = any (has_key (str_int order.odoo_order_id) target) table ≡ true

-- The table has a row for every target of the order; for every order and target.
abbrev pub IsCovered : List String → List OutboxEntry → OrderDto → Type 0
IsCovered targets table order = All (λ target. IsQueued order target table) targets

abbrev pub AllCovered : List OrderDto → List String → List OutboxEntry → Type 0
AllCovered orders targets table = All (IsCovered targets table) orders

-- No two rows have the same aggregate and target: `uq_outbox_aggregate_target`.
abbrev pub HasUniqueKeys : List OutboxEntry → Type 0
HasUniqueKeys [] = Unit
HasUniqueKeys (row ∷ table) =
    (any (has_key row.aggregate_id row.target_adapter) table ≡ false) × HasUniqueKeys table

-- A row that is queued stays queued when rows are added behind.
pub IsQueued-append :
    (order : OrderDto) (target : String) (table news : List OutboxEntry)
    → IsQueued order target table
    → IsQueued order target (table ++ news)
IsQueued-append order target table news h =
    ground (arith, any-append (has_key (str_int order.odoo_order_id) target) table news)

pub IsCovered-append :
    (order : OrderDto) (targets : List String) (table news : List OutboxEntry)
    → IsCovered targets table order
    → IsCovered targets (table ++ news) order
IsCovered-append order [] table news h = tt
IsCovered-append order (target ∷ targets) table news (q, h) =
    (IsQueued-append order target table news q, IsCovered-append order targets table news h)

has_key_sym :
    (r s : OutboxEntry)
    → has_key s.aggregate_id s.target_adapter r ≡ false
    → has_key r.aggregate_id r.target_adapter s ≡ false
unfolding has_key
has_key_sym r s h = ground (
  arith,
  eq_iff r.aggregate_id s.aggregate_id,
  eq_iff s.aggregate_id r.aggregate_id,
  eq_iff r.target_adapter s.target_adapter,
  eq_iff s.target_adapter r.target_adapter,
)

HasUniqueKeys-append :
    (table : List OutboxEntry) (row : OutboxEntry)
    → HasUniqueKeys table
    → any (has_key row.aggregate_id row.target_adapter) table ≡ false
    → HasUniqueKeys (table ++ row ∷ [])
HasUniqueKeys-append [] row h new = (refl, tt)
HasUniqueKeys-append (r ∷ table) row h new = (
  ground (
    arith,
    has_key_sym r row,
    h.0,
    any-append (has_key r.aggregate_id r.target_adapter) table (row ∷ []),
  ),
  HasUniqueKeys-append table row h.1 (ground arith),
)

has_key-new_entry :
    (order : OrderDto) (target : String) (id now : ℕ)
    → has_key (str_int order.odoo_order_id) target (new_entry order target id now) ≡ true
unfolding has_key
has_key-new_entry order target id now = rw (eq_refl (str_int order.odoo_order_id)) (eq_refl target)

module _ {E : Type 0} where
  abbrev pub is_taken : OrderDto → String → World E → Bool
  is_taken order target w = any (has_key (str_int order.odoo_order_id) target) w.db.outbox

  -- The two results of an insertion: an id is drawn either way.
  abbrev pub drawn : World E → World E
  drawn w = record w { seq = record w.seq { outbox = w.seq.outbox + 1 } }

  abbrev pub added : OrderDto → String → World E → World E
  added order target w = record w {
    seq = record w.seq { outbox = w.seq.outbox + 1 };
    db = record w.db { outbox = w.db.outbox ++ new_entry order target w.seq.outbox w.clock ∷ [] };
  }

  pub insert_entry-taken :
      (order : OrderDto) (target : String) (w : World E)
      → is_taken order target w ≡ true
      → insert_entry order target w ≡ (ok false, drawn w)
  unfolding insert_entry
  insert_entry-taken order target w h = rw h

  pub insert_entry-free :
      (order : OrderDto) (target : String) (w : World E)
      → is_taken order target w ≡ false
      → insert_entry order target w ≡ (ok true, added order target w)
  unfolding insert_entry
  insert_entry-free order target w h = rw h

  pub insert_entry-IsQueued :
      (order : OrderDto) (target : String) (w : World E)
      → IsQueued order target (insert_entry order target w).1.db.outbox
  insert_entry-IsQueued order target w = elim (Bool-cases (is_taken order target w)) [
    | inl taken ↦ rw (insert_entry-taken order target w taken) taken
    | inr free ↦
        let row = new_entry order target w.seq.outbox w.clock in
        let e = any-append (has_key (str_int order.odoo_order_id) target) w.db.outbox (row ∷ []) in
        rw (insert_entry-free order target w free)
          (ground (arith, e, has_key-new_entry order target w.seq.outbox w.clock))
  ]

  pub insert_entry-HasUniqueKeys :
      (order : OrderDto) (target : String) (w : World E)
      → HasUniqueKeys w.db.outbox
      → HasUniqueKeys (insert_entry order target w).1.db.outbox
  insert_entry-HasUniqueKeys order target w h = elim (Bool-cases (is_taken order target w)) [
    | inl taken ↦ rw (insert_entry-taken order target w taken) h
    | inr free ↦
        rw (insert_entry-free order target w free)
          (HasUniqueKeys-append w.db.outbox (new_entry order target w.seq.outbox w.clock) h free)
  ]

  pub enqueue_targets-step :
      (order : OrderDto) (target : String) (targets : List String) (n : ℕ) (w : World E)
      → enqueue_targets order (target ∷ targets) n w
        ≡ enqueue_targets order targets
            (if is_taken order target w then n else n + 1)
            (insert_entry order target w).1
  unfolding enqueue_targets ◌>>=◌
  enqueue_targets-step order target targets n w = elim (Bool-cases (is_taken order target w)) [
    | inl taken ↦ rw (insert_entry-taken order target w taken, taken)
    | inr free ↦ rw (insert_entry-free order target w free, free)
  ]
