-- ===== src/Outbox/Enqueue/Growth.antt =====
-- What `enqueue_orders` adds to the outbox: new rows behind the old ones, as many as it says.
use mathlib.Core.Path.{subst}
use mathlib.Core.List.{append_assoc, append-nil}
use retail_order_sync_hub.Base.{
  ℕ, ◌+◌, String, List, [], ◌∷◌, ◌++◌, any, length, length-append, All, All-append, ◌≡◌, refl, sym,
  ap, ◌∙◌, inl, inr, str_int, Bool-cases, if◌then◌else◌, arith, none,
}
use retail_order_sync_hub.Model.{OutboxEntry, Status, Db}
use retail_order_sync_hub.World.{World}
use retail_order_sync_hub.Exec.{Exec, Result, ok, pure, ◌>>=◌}
use retail_order_sync_hub.World.Session.{session_scope_ok}
use retail_order_sync_hub.Adapters.Dto.{OrderDto}
use retail_order_sync_hub.Outbox.Enqueue.{
  has_key, new_entry, insert_entry, enqueue_targets, enqueue_all, enqueue_orders,
}

-- A row that has just been inserted: pending, never attempted, due at once.
pub record IsFresh (now : ℕ) (row : OutboxEntry) : Type 0 where
  pub pending : row.status ≡ Status.pending
  pub unattempted : row.attempts ≡ 0
  pub due : row.next_attempt_at ≡ now
  pub clean : row.error_log ≡ none

-- The action returns `n` more than it was given, for `n` fresh rows behind the old ones, and changes
-- no other table.
pub record Grows {E : Type 0} (w : World E) (n : ℕ) (r : Result ℕ × World E) : Type 0 where
  pub news : List OutboxEntry
  pub counted : r.0 ≡ ok (n + length news)
  pub appended : r.1.db ≡ record w.db { outbox = w.db.outbox ++ news }
  pub fresh : All (IsFresh w.clock) news
  pub clock : r.1.clock ≡ w.clock

module _ {E : Type 0} where
  Grows-pure : (w : World E) (n : ℕ) → Grows w n (pure n w)
  unfolding pure
  Grows-pure w n = record {
    news = [];
    counted = ap ok (omega arith);
    appended =
        ap (λ (t : List OutboxEntry). record w.db { outbox = t }) (sym (append-nil w.db.outbox));
    fresh = tt;
    clock = refl;
  }

  -- `w'` is `w` with `news` behind its outbox, and `r` grows from `w'`.
  Grows-behind :
      (w w' : World E) (n : ℕ) (news : List OutboxEntry) (r : Result ℕ × World E)
      → w'.db ≡ record w.db { outbox = w.db.outbox ++ news }
      → w'.clock ≡ w.clock
      → All (IsFresh w.clock) news
      → Grows w' (n + length news) r
      → Grows w n r
  Grows-behind w w' n news r behind clock fresh g = record {
    news = news ++ g.news;
    counted = g.counted ∙ ap ok (omega (arith, length-append news g.news));
    appended =
        g.appended
        ∙ ap (λ (d : Db). record d { outbox = d.outbox ++ g.news }) behind
        ∙ ap (λ (t : List OutboxEntry). record w.db { outbox = t })
            (append_assoc w.db.outbox news g.news);
    fresh =
        All-append (IsFresh w.clock) news g.news fresh
          (subst (λ now. All (IsFresh now) g.news) clock g.fresh);
    clock = g.clock ∙ clock;
  }

  -- One insertion, and then whatever grows from its result.
  Grows-insert :
      (order : OrderDto) (target : String) (n : ℕ) (w : World E) (f : ℕ → Exec (World E) ℕ)
      → ((m : ℕ) (w' : World E) → Grows w' m (f m w'))
      → Grows w n ((insert_entry order target >>= λ new. f (if new then n + 1 else n)) w)
  unfolding insert_entry ◌>>=◌
  Grows-insert order target n w f grow =
      elim (Bool-cases (any (has_key (str_int order.odoo_order_id) target) w.db.outbox)) [
        | inl taken ↦
            let w' : World E = record w { seq = record w.seq { outbox = w.seq.outbox + 1 } } in
            rw taken (record {
              news = (grow n w').news;
              counted = (grow n w').counted;
              appended = (grow n w').appended;
              fresh = (grow n w').fresh;
              clock = (grow n w').clock;
            })
        | inr free ↦
            let row = new_entry order target w.seq.outbox w.clock in
            let w' : World E = record w {
              seq = record w.seq { outbox = w.seq.outbox + 1 };
              db = record w.db { outbox = w.db.outbox ++ row ∷ [] };
            } in
            rw free (
              Grows-behind w w' n (row ∷ []) (f (n + 1) w') refl refl
                (record { pending = refl; unattempted = refl; due = refl; clean = refl }, tt)
                (grow (n + 1) w'))
      ]

  pub Grows-targets :
      (order : OrderDto) (targets : List String) (n : ℕ) (w : World E)
      → Grows w n (enqueue_targets order targets n w)
  unfolding enqueue_targets
  Grows-targets order [] n w = Grows-pure w n
  Grows-targets order (target ∷ targets) n w =
      Grows-insert order target n w (enqueue_targets order targets) (Grows-targets order targets)

  Grows-bind :
      (w : World E) (n : ℕ) (m : Exec (World E) ℕ) (f : ℕ → Exec (World E) ℕ)
      → Grows w n (m w)
      → ((k : ℕ) (w' : World E) → Grows w' k (f k w'))
      → Grows w n ((m >>= f) w)
  unfolding ◌>>=◌
  Grows-bind w n m f g grow = rw g.counted (
      Grows-behind w (m w).1 n g.news (f (n + length g.news) (m w).1) g.appended g.clock g.fresh
        (grow (n + length g.news) (m w).1))

  pub Grows-all :
      (orders : List OrderDto) (targets : List String) (n : ℕ) (w : World E)
      → Grows w n (enqueue_all orders targets n w)
  unfolding enqueue_all
  Grows-all [] targets n w = Grows-pure w n
  Grows-all (order ∷ orders) targets n w =
      Grows-bind w n (enqueue_targets order targets n) (enqueue_all orders targets)
        (Grows-targets order targets n w) (Grows-all orders targets)

  -- Enqueuing never fails. The number that it returns is that of the rows which it adds behind the
  -- rows of the outbox; each of them is pending, due at once and never attempted; the rows that
  -- were there are left as they are, and so is every other table.
  pub enqueue_orders-Grows :
      (orders : List OrderDto) (targets : List String) (w : World E)
      → Grows w 0 (enqueue_orders orders targets w)
  unfolding enqueue_orders
  enqueue_orders-Grows orders targets w =
      let g = Grows-all orders targets 0 w in
      subst (Grows w 0) (sym (session_scope_ok (enqueue_all orders targets 0) w g.counted)) g
