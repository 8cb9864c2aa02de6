-- ===== src/Subscriber/Silver/Map.antt =====
-- The silver table as a map: from a marketplace and its order id to the status and the ERP's id.
use retail_order_sync_hub.Base.{
  find-any, ℕ, ℤ, String, ◌==◌, string_eq, Bool, true, false, ◌&&◌, Option, none, some, List, [],
  ◌∷◌, ◌++◌, find, any, if◌then◌else◌, ◌≡◌, refl, sym, ap, ◌∙◌, inl, inr, Bool-cases, arith, eq_iff,
}
use retail_order_sync_hub.Model.{Order}
use retail_order_sync_hub.World.{World}
use retail_order_sync_hub.Subscriber.Normalize.{NormalizedOrder}
use retail_order_sync_hub.Subscriber.Silver.{
  is_id, is_row, updated_row, inserted_row, update_rows, upsert_found, upsert_order,
}

-- What the table says of a key.
unfoldable pub lookup : String → String → List Order → Option (String × Option ℤ)
lookup m i [] = none
lookup m i (row ∷ rows) =
    let rest = lookup m i rows in
    if is_row m i row then some (row.status, row.odoo_order_id) else rest

-- The key is that of the order.
abbrev pub is_key : NormalizedOrder → String → String → Bool
is_key order m i = order.marketplace == m && order.marketplace_order_id == i

is_id-some : (i : String) (o : Option String) → is_id i o ≡ true → o ≡ some i
is_id-some i none h = absurd (cc)
is_id-some i (some j) h = ap some ((eq_iff j i).0 h)

is_row-fields :
    (m i : String) (row : Order)
    → is_row m i row ≡ true
    → (row.marketplace ≡ m) × (row.marketplace_order_id ≡ some i)
unfolding is_row
is_row-fields m i row h =
    (ground (arith, eq_iff row.marketplace m), is_id-some i row.marketplace_order_id (ground arith))

module _ (order : NormalizedOrder) (now : ℕ) (m i : String) where
  -- An update keeps the key of a row.
  is_row-updated_row : (row : Order) → is_row m i (updated_row order now row) ≡ is_row m i row
  unfolding is_row
  is_row-updated_row row = refl

  -- A row of the order's key has another key only if the two keys are the same.
  keys_differ :
      (row : Order)
      → is_row order.marketplace order.marketplace_order_id row ≡ true
      → is_row m i row ≡ is_key order m i
  unfolding is_row
  keys_differ row h =
      let (p, q) = is_row-fields order.marketplace order.marketplace_order_id row h in
      rw p (rw q refl)

  lookup-update_rows_other :
      (rows : List Order)
      → is_key order m i ≡ false
      → lookup m i (update_rows order now rows) ≡ lookup m i rows
  unfolding lookup update_rows
  lookup-update_rows_other [] other = refl
  lookup-update_rows_other (row ∷ rows) other =
      ground (arith, is_row-updated_row row, keys_differ row, lookup-update_rows_other rows other)

  lookup-append :
      (rows : List Order) (row : Order)
      → lookup m i (rows ++ row ∷ [])
        ≡ (if any (is_row m i) rows then lookup m i rows else lookup m i (row ∷ []))
  unfolding lookup
  lookup-append [] row = refl
  lookup-append (r ∷ rows) row = ground (arith, lookup-append rows row)

  lookup-any : (rows : List Order) → any (is_row m i) rows ≡ false → lookup m i rows ≡ none
  unfolding lookup
  lookup-any [] h = refl
  lookup-any (row ∷ rows) h = ground (arith, lookup-any rows)

  lookup_one :
      (row : Order)
      → lookup m i (row ∷ [])
        ≡ (if is_row m i row then some (row.status, row.odoo_order_id) else none)
  unfolding lookup
  lookup_one row = refl

  is_row-inserted_row : (id : ℕ) → is_row m i (inserted_row order id now) ≡ is_key order m i
  unfolding is_row
  is_row-inserted_row id = refl

  lookup-inserted :
      (rows : List Order) (id : ℕ)
      → any (is_row order.marketplace order.marketplace_order_id) rows ≡ false
      → lookup m i (rows ++ inserted_row order id now ∷ [])
        ≡ (if is_key order m i then some (order.status, order.odoo_order_id) else lookup m i rows)
  lookup-inserted rows id new = elim (Bool-cases (is_key order m i)) [
    | inl same ↦
        let p : order.marketplace ≡ m = (eq_iff order.marketplace m).0 (ground arith) in
        let q : order.marketplace_order_id ≡ i =
          (eq_iff order.marketplace_order_id i).0 (ground arith) in
        let new' : any (is_row m i) rows ≡ false = rw p at (rw q at new) in
        lookup-append rows (inserted_row order id now)
        ∙ ground (arith, new', same, is_row-inserted_row id, lookup_one (inserted_row order id now))
    | inr other ↦
        lookup-append rows (inserted_row order id now)
        ∙ ground
            (arith, is_row-inserted_row id, lookup-any rows, lookup_one (inserted_row order id now))
  ]

module _ (order : NormalizedOrder) (now : ℕ) where
  lookup-update_rows :
      (rows : List Order)
      → any (is_row order.marketplace order.marketplace_order_id) rows ≡ true
      → lookup order.marketplace order.marketplace_order_id (update_rows order now rows)
        ≡ some (order.status, order.odoo_order_id)
  unfolding lookup update_rows
  lookup-update_rows [] h = absurd (cc)
  lookup-update_rows (row ∷ rows) h = ground (
    arith,
    is_row-updated_row order now order.marketplace order.marketplace_order_id row,
    lookup-update_rows rows,
  )

find-some {ℓ} :
    {A : Type ℓ} (p : A → Bool) (xs : List A) → any p xs ≡ true → (x : A) × (find p xs ≡ some x)
find-some p [] h = absurd (cc)
find-some p (x ∷ xs) h = elim (Bool-cases (p x)) [
  | inl hit ↦ (x, rw hit)
  | inr other ↦ rw other (find-some p xs (ground arith))
]

module _ {E : Type 0} (order : NormalizedOrder) (w : World E) where
  upsert_new :
      any (is_row order.marketplace order.marketplace_order_id) w.db.orders ≡ false
      → (upsert_order order w).1.db.orders
        ≡ w.db.orders ++ inserted_row order w.seq.orders w.clock ∷ []
  unfolding upsert_order
  upsert_new h =
      rw (find-any (is_row order.marketplace order.marketplace_order_id) w.db.orders h)
        (unfold upsert_found in refl)

  pub upsert_old :
      any (is_row order.marketplace order.marketplace_order_id) w.db.orders ≡ true
      → (upsert_order order w).1.db.orders ≡ update_rows order w.clock w.db.orders
  unfolding upsert_order
  upsert_old h =
      let (row, e) =
        find-some (is_row order.marketplace order.marketplace_order_id) w.db.orders h in
      rw e (unfold upsert_found in refl)

  -- Of the silver table as a map, an upsert is the insertion of the order's status and ERP id under
  -- its marketplace and order id: every other key is as it was.
  pub lookup-upsert_order :
      (m i : String)
      → lookup m i (upsert_order order w).1.db.orders ≡ (
          if is_key order m i
          then some (order.status, order.odoo_order_id)
          else lookup m i w.db.orders)
  lookup-upsert_order m i =
      elim (Bool-cases (any (is_row order.marketplace order.marketplace_order_id) w.db.orders)) [
        | inl old ↦ elim (Bool-cases (is_key order m i)) [
          | inl same ↦
              let p : order.marketplace ≡ m = (eq_iff order.marketplace m).0 (ground arith) in
              let q : order.marketplace_order_id ≡ i =
                (eq_iff order.marketplace_order_id i).0 (ground arith) in
              rw (upsert_old old) (
                rw same
                  (rw (sym p) (rw (sym q) (lookup-update_rows order w.clock w.db.orders old))))
          | inr other ↦
              rw (upsert_old old)
                (rw other (lookup-update_rows_other order w.clock m i w.db.orders other))
        ]
        | inr new ↦
            rw (upsert_new new) (lookup-inserted order w.clock m i w.db.orders w.seq.orders new)
      ]
