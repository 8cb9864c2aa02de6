-- ===== src/BqSync/Missed.antt =====
-- The updates of the silver table that a synchronization does not see.
use retail_order_sync_hub.Base.{
  ℕ, Bool, true, false, ◌||◌, some, List, [], ◌∷◌, any, select, order_by, ◌≡◌, refl, ap, ◌∙◌, inl,
  inr, Bool-cases, arith,
}
use retail_order_sync_hub.Model.{Order}
use retail_order_sync_hub.World.{World}
use retail_order_sync_hub.Subscriber.Normalize.{NormalizedOrder}
use retail_order_sync_hub.Subscriber.Silver.{is_row, update_rows, upsert_order}
use retail_order_sync_hub.Subscriber.Silver.Map.{upsert_old}
use retail_order_sync_hub.BqSync.{is_after, new_orders}

-- The row is newer than the watermark.
abbrev pub is_newer : ℕ → Order → Bool
is_newer watermark r = is_after (some watermark) r.updated_at

select-none {ℓ} : {A : Type ℓ} (p : A → Bool) (xs : List A) → any p xs ≡ false → select p xs ≡ []
select-none p [] h = refl
select-none p (x ∷ xs) h = ground (arith, select-none p xs)

any-update_rows :
    (order : NormalizedOrder) (now watermark : ℕ) (rows : List Order)
    → any (is_newer watermark) (update_rows order now rows) ≡ any (is_newer watermark) rows
unfolding update_rows
any-update_rows order now watermark [] = refl
any-update_rows order now watermark (row ∷ rows) =
    elim (Bool-cases (is_row order.marketplace order.marketplace_order_id row)) [
      | inl here ↦
          rw here (ap (λ b. is_newer watermark row || b) (any-update_rows order now watermark rows))
      | inr other ↦
          rw other
            (ap (λ b. is_newer watermark row || b) (any-update_rows order now watermark rows))
    ]

new_orders-none :
    (watermark : ℕ) (rows : List Order)
    → any (is_newer watermark) rows ≡ false
    → new_orders (some watermark) rows ≡ []
unfolding new_orders order_by
new_orders-none watermark rows h = rw (select-none (is_newer watermark) rows h) refl

module _ {E : Type 0} (order : NormalizedOrder) (w : World E) (watermark : ℕ) where
  -- An update of an order that the silver table has is missed: where no row is newer than the
  -- watermark before, the query of the rows to send finds none after it.
  pub new_orders-upsert_order :
      any (is_row order.marketplace order.marketplace_order_id) w.db.orders ≡ true
      → any (is_newer watermark) w.db.orders ≡ false
      → new_orders (some watermark) (upsert_order order w).1.db.orders ≡ []
  new_orders-upsert_order known synced = rw (upsert_old order w known) (
      new_orders-none watermark (update_rows order w.clock w.db.orders)
        (any-update_rows order w.clock watermark w.db.orders ∙ synced))
