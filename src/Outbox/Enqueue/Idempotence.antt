-- ===== src/Outbox/Enqueue/Idempotence.antt =====
-- What enqueuing does to the key (aggregate, target): it stays unique, every order gets its row for
-- every target, and a second run inserts nothing.
use mathlib.Core.Path.{subst}
use retail_order_sync_hub.Base.{
  ℕ, ◌+◌, String, string_eq, List, [], ◌∷◌, length, ◌≡◌, refl, sym, ◌∙◌, if◌then◌else◌,
}
use retail_order_sync_hub.Model.{Db}
use retail_order_sync_hub.World.{World}
use retail_order_sync_hub.World.Session.{session_scope_ok}
use retail_order_sync_hub.Exec.{Result, ok, pure, ◌>>=◌}
use retail_order_sync_hub.Adapters.Dto.{OrderDto}
use retail_order_sync_hub.Outbox.Enqueue.{
  insert_entry, enqueue_targets, enqueue_all, enqueue_orders,
}
use retail_order_sync_hub.Outbox.Enqueue.Growth.{Grows-targets, Grows-all}
use retail_order_sync_hub.Outbox.Enqueue.Insert.{
  IsCovered, AllCovered, IsQueued-append, IsCovered-append, is_taken, drawn, insert_entry-taken,
  insert_entry-IsQueued, enqueue_targets-step,
}

module _ {E : Type 0} where
  -- Every order has its row for every target when the loop over the targets ends, unique keys stay
  -- unique, and a second run inserts nothing.
  enqueue_targets-IsCovered :
      (order : OrderDto) (targets : List String) (n : ℕ) (w : World E)
      → IsCovered targets (enqueue_targets order targets n w).1.db.outbox order
  enqueue_targets-IsCovered order [] n w = tt
  enqueue_targets-IsCovered order (target ∷ targets) n w =
      let w' = (insert_entry order target w).1 in
      let n' = if is_taken order target w then n else n + 1 in
      let g = Grows-targets order targets n' w' in
      subst (λ (r : Result ℕ × World E). IsCovered (target ∷ targets) r.1.db.outbox order)
        (sym (enqueue_targets-step order target targets n w))
        (
          rw g.appended (
              IsQueued-append order target w'.db.outbox g.news
                (insert_entry-IsQueued order target w)),
          enqueue_targets-IsCovered order targets n' w',
        )

  enqueue_targets-again :
      (order : OrderDto) (targets : List String) (n : ℕ) (w : World E)
      → IsCovered targets w.db.outbox order
      → ((enqueue_targets order targets n w).0 ≡ ok n)
        × ((enqueue_targets order targets n w).1.db ≡ w.db)
  enqueue_targets-again order [] n w h = unfold enqueue_targets pure in (refl, refl)
  enqueue_targets-again order (target ∷ targets) n w (taken, h) =
      rw (enqueue_targets-step order target targets n w) (
        rw (insert_entry-taken order target w taken, taken)
          (enqueue_targets-again order targets n (drawn w) h))

  -- The same over the orders. `after` is the world that the first order's targets leave.
  abbrev after : OrderDto → List String → ℕ → World E → World E
  after order targets n w = (enqueue_targets order targets n w).1

  enqueue_all-step :
      (order : OrderDto) (orders : List OrderDto) (targets : List String) (n k : ℕ) (w : World E)
      → (enqueue_targets order targets n w).0 ≡ ok k
      → enqueue_all (order ∷ orders) targets n w
        ≡ enqueue_all orders targets k (after order targets n w)
  unfolding enqueue_all ◌>>=◌
  enqueue_all-step order orders targets n k w h = rw h

  enqueue_all-AllCovered :
      (orders : List OrderDto) (targets : List String) (n : ℕ) (w : World E)
      → AllCovered orders targets (enqueue_all orders targets n w).1.db.outbox
  enqueue_all-AllCovered [] targets n w = tt
  enqueue_all-AllCovered (order ∷ orders) targets n w =
      let first = Grows-targets order targets n w in
      let k = n + length first.news in
      let w' = after order targets n w in
      let g = Grows-all orders targets k w' in
      subst (λ (r : Result ℕ × World E). AllCovered (order ∷ orders) targets r.1.db.outbox)
        (sym (enqueue_all-step order orders targets n k w first.counted))
        (
          rw g.appended (
              IsCovered-append order targets w'.db.outbox g.news
                (enqueue_targets-IsCovered order targets n w)),
          enqueue_all-AllCovered orders targets k w',
        )

  enqueue_all-again :
      (orders : List OrderDto) (targets : List String) (n : ℕ) (w : World E)
      → AllCovered orders targets w.db.outbox
      → ((enqueue_all orders targets n w).0 ≡ ok n) × ((enqueue_all orders targets n w).1.db ≡ w.db)
  enqueue_all-again [] targets n w h = unfold enqueue_all pure in (refl, refl)
  enqueue_all-again (order ∷ orders) targets n w (c, h) =
      let (same, db) = enqueue_targets-again order targets n w c in
      let (same', db') =
        enqueue_all-again orders targets n (after order targets n w)
          (subst (λ (d : Db). AllCovered orders targets d.outbox) (sym db) h) in
      rw (enqueue_all-step order orders targets n n w same) (same', db' ∙ db)

  enqueue_orders_lem :
      (orders : List OrderDto) (targets : List String) (w : World E)
      → enqueue_orders orders targets w ≡ enqueue_all orders targets 0 w
  unfolding enqueue_orders
  enqueue_orders_lem orders targets w =
      session_scope_ok (enqueue_all orders targets 0) w (Grows-all orders targets 0 w).counted

  -- Enqueuing the same orders for the same targets once more adds nothing: it returns 0, and the
  -- tables stay as the first run left them.
  pub enqueue_orders_again :
      (orders : List OrderDto) (targets : List String) (w : World E)
      → let w' = (enqueue_orders orders targets w).1 in
        ((enqueue_orders orders targets w').0 ≡ ok 0)
        × ((enqueue_orders orders targets w').1.db ≡ w'.db)
  enqueue_orders_again orders targets w =
      let w' = (enqueue_orders orders targets w).1 in
      rw (enqueue_orders_lem orders targets w') (
        enqueue_all-again orders targets 0 w'
          (rw (enqueue_orders_lem orders targets w) (enqueue_all-AllCovered orders targets 0 w)))
