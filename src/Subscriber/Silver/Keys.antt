-- ===== src/Subscriber/Silver/Keys.antt =====
-- The silver table under upserts: its key stays unique, and each row stays the order of some bronze row.
use retail_order_sync_hub.Base.{
  any-snoc, ℕ, String, string_eq, Bool, true, false, ◌==◌, ◌||◌, Option, none, some, List, [], ◌∷◌,
  ◌++◌, find, any, All, All-append, All-mono, In, In-append, ◌≡◌, refl, ap, ◌∙◌, inl, inr,
  Bool-cases, arith, eq_iff,
}
use retail_order_sync_hub.Model.{Order, WebhookLog}
use retail_order_sync_hub.World.{World}
use retail_order_sync_hub.Exec.{ok}
use retail_order_sync_hub.Services.{Runtime}
use retail_order_sync_hub.Subscriber.Normalize.{NormalizedOrder, normalize_event}
use retail_order_sync_hub.Subscriber.Silver.{
  is_id, is_row, updated_row, inserted_row, update_rows, upsert_found, upsert_order,
}

-- No row has the marketplace and the order id, if there is one.
abbrev IsFree : String → Option String → List Order → Type 0
IsFree marketplace none rows = Unit
IsFree marketplace (some id) rows = any (is_row marketplace id) rows ≡ false

-- `uq_orders_marketplace_id`
abbrev pub HasUniqueOrders : List Order → Type 0
HasUniqueOrders [] = Unit
HasUniqueOrders (row ∷ rows) =
    IsFree row.marketplace row.marketplace_order_id rows × HasUniqueOrders rows

-- Every column of the order that a normalization gives is what some bronze row is normalized to, and the
-- order has been synchronized.
abbrev pub HasSource : Runtime → List WebhookLog → Order → Type 0
HasSource rt log row =
    (event : WebhookLog) × In event log
    × ((order : NormalizedOrder) × (normalize_event rt event.source event.raw_body ≡ ok order)
        × (row.marketplace ≡ order.marketplace)
        × (row.marketplace_order_id ≡ some order.marketplace_order_id)
        × (row.odoo_order_id ≡ order.odoo_order_id)
        × (row.status ≡ order.status)
        × ((at : ℕ) × (row.last_sync_at ≡ some at)))

find-none {ℓ} : {A : Type ℓ} (p : A → Bool) (xs : List A) → find p xs ≡ none → any p xs ≡ false
find-none p [] h = refl
find-none p (x ∷ xs) h = ground (arith, find-none p xs)

module _ (order : NormalizedOrder) (now : ℕ) where
  any-update_rows :
      (m i : String) (rows : List Order)
      → any (is_row m i) (update_rows order now rows) ≡ any (is_row m i) rows
  unfolding update_rows is_row
  any-update_rows m i [] = refl
  any-update_rows m i (row ∷ rows) =
      elim (Bool-cases (is_row order.marketplace order.marketplace_order_id row)) [
        | inl hit ↦ rw hit (ap (λ b. is_row m i row || b) (any-update_rows m i rows))
        | inr miss ↦ rw miss (ap (λ b. is_row m i row || b) (any-update_rows m i rows))
      ]

  IsFree-update_rows :
      (m : String) (i : Option String) (rows : List Order)
      → IsFree m i rows
      → IsFree m i (update_rows order now rows)
  IsFree-update_rows m none rows h = tt
  IsFree-update_rows m (some i) rows h = any-update_rows m i rows ∙ h

  HasUniqueOrders-update_rows :
      (rows : List Order) → HasUniqueOrders rows → HasUniqueOrders (update_rows order now rows)
  unfolding update_rows
  HasUniqueOrders-update_rows [] h = tt
  HasUniqueOrders-update_rows (row ∷ rows) (free, h) =
      let free' = IsFree-update_rows row.marketplace row.marketplace_order_id rows free in
      let rest = HasUniqueOrders-update_rows rows h in
      elim (Bool-cases (is_row order.marketplace order.marketplace_order_id row)) [
        | inl hit ↦ rw hit (free', rest)
        | inr miss ↦ rw miss (free', rest)
      ]

  -- What holds of every row still does, if it holds of the rows that an update changes.
  All-update_rows :
      (P : Order → Type 0) (rows : List Order)
      → ((row : Order)
          → is_row order.marketplace order.marketplace_order_id row ≡ true
          → P (updated_row order now row))
      → All P rows
      → All P (update_rows order now rows)
  unfolding update_rows
  All-update_rows P [] f h = tt
  All-update_rows P (row ∷ rows) f (p, h) =
      elim (Bool-cases (is_row order.marketplace order.marketplace_order_id row)) [
        | inl hit ↦ rw hit (f row hit, All-update_rows P rows f h)
        | inr miss ↦ rw miss (p, All-update_rows P rows f h)
      ]

IsFree-snoc :
    (m : String) (i : Option String) (rows : List Order) (order : NormalizedOrder) (id now : ℕ)
    → IsFree m i rows
    → ((j : String) → i ≡ some j → is_row m j (inserted_row order id now) ≡ false)
    → IsFree m i (rows ++ inserted_row order id now ∷ [])
IsFree-snoc m none rows order id now h other = tt
IsFree-snoc m (some i) rows order id now h other =
    let e = other i refl in ground (arith, any-snoc (is_row m i) rows (inserted_row order id now))

-- The key of a row that is not that of the order.
other_key :
    (row : Order) (order : NormalizedOrder) (id now : ℕ) (j : String)
    → is_row order.marketplace order.marketplace_order_id row ≡ false
    → row.marketplace_order_id ≡ some j
    → is_row row.marketplace j (inserted_row order id now) ≡ false
unfolding is_row
other_key row order id now j h e =
    let h' = rw e at h in
    ground (
      arith,
      h',
      eq_iff order.marketplace row.marketplace,
      eq_iff row.marketplace order.marketplace,
      eq_iff order.marketplace_order_id j,
      eq_iff j order.marketplace_order_id,
    )

HasUniqueOrders-snoc :
    (rows : List Order) (order : NormalizedOrder) (id now : ℕ)
    → HasUniqueOrders rows
    → any (is_row order.marketplace order.marketplace_order_id) rows ≡ false
    → HasUniqueOrders (rows ++ inserted_row order id now ∷ [])
HasUniqueOrders-snoc [] order id now u new = (refl, tt)
HasUniqueOrders-snoc (row ∷ rows) order id now (free, u) new = (
  IsFree-snoc row.marketplace row.marketplace_order_id rows order id now free
      (λ j e. other_key row order id now j (ground arith) e),
  HasUniqueOrders-snoc rows order id now u (ground arith),
)

id_key : (id : String) (other : Option String) → is_id id other ≡ true → other ≡ some id
id_key id none h = absurd (cc h)
id_key id (some other) h = ap some ((eq_iff other id).0 h)

-- The key of a row that is that of the order.
row_key :
    (order : NormalizedOrder) (row : Order)
    → is_row order.marketplace order.marketplace_order_id row ≡ true
    → (row.marketplace ≡ order.marketplace)
      × (row.marketplace_order_id ≡ some order.marketplace_order_id)
unfolding is_row
row_key order row hit =
    let same : (row.marketplace == order.marketplace) ≡ true = ground (arith, hit) in
    let id : is_id order.marketplace_order_id row.marketplace_order_id ≡ true =
      ground (arith, hit) in
    (
      (eq_iff row.marketplace order.marketplace).0 same,
      id_key order.marketplace_order_id row.marketplace_order_id id,
    )

module _ {E : Type 0} (order : NormalizedOrder) where
  upsert_found-HasUniqueOrders :
      (found : Option Order) (w : World E)
      → (found ≡ none
          → any (is_row order.marketplace order.marketplace_order_id) w.db.orders ≡ false)
      → HasUniqueOrders w.db.orders
      → HasUniqueOrders (upsert_found order found w).1.db.orders
  unfolding upsert_found
  upsert_found-HasUniqueOrders none w new u =
      HasUniqueOrders-snoc w.db.orders order w.seq.orders w.clock u (new refl)
  upsert_found-HasUniqueOrders (some row) w new u =
      HasUniqueOrders-update_rows order w.clock w.db.orders u

  pub upsert_order-HasUniqueOrders :
      (w : World E)
      → HasUniqueOrders w.db.orders
      → HasUniqueOrders (upsert_order order w).1.db.orders
  unfolding upsert_order
  upsert_order-HasUniqueOrders w u =
      upsert_found-HasUniqueOrders _ w
        (find-none (is_row order.marketplace order.marketplace_order_id) w.db.orders) u

  module _ (rt : Runtime) (event : WebhookLog)
      (normalized : normalize_event rt event.source event.raw_body ≡ ok order) where
    upsert_found-HasSource :
        (found : Option Order) (w : World E)
        → In event w.db.webhook_log
        → All (HasSource rt w.db.webhook_log) w.db.orders
        → All (HasSource rt w.db.webhook_log) (upsert_found order found w).1.db.orders
    unfolding upsert_found
    upsert_found-HasSource none w i h =
        All-append (HasSource rt w.db.webhook_log) w.db.orders
          (inserted_row order w.seq.orders w.clock ∷ []) h
          ((event, i, (order, normalized, refl, refl, refl, refl, (w.clock, refl))), tt)
    upsert_found-HasSource (some row) w i h =
        All-update_rows order w.clock (HasSource rt w.db.webhook_log) w.db.orders
          (λ r hit.
            let (same, id) = row_key order r hit in
            (event, i, (order, normalized, same, id, refl, refl, (w.clock, refl))))
          h

    pub upsert_order-HasSource :
        (w : World E)
        → In event w.db.webhook_log
        → All (HasSource rt w.db.webhook_log) w.db.orders
        → All (HasSource rt w.db.webhook_log) (upsert_order order w).1.db.orders
    unfolding upsert_order
    upsert_order-HasSource w i h = upsert_found-HasSource _ w i h

-- More events leave every order its source.
pub All-HasSource-append :
    (rt : Runtime) (log news : List WebhookLog) (rows : List Order)
    → All (HasSource rt log) rows
    → All (HasSource rt (log ++ news)) rows
All-HasSource-append rt log news rows h =
    All-mono (HasSource rt log) (HasSource rt (log ++ news)) rows
      (λ row (event, i, of). (event, In-append event log news i, of)) h
