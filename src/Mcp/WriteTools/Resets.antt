-- ===== src/Mcp/WriteTools/Resets.antt =====
-- What the write tools do to the tables: some rows of the outbox are reset in their places.
use mathlib.Core.Path.{subst}
use mathlib.Core.Option.{some-injective}
use retail_order_sync_hub.Base.{
  ℕ, ◌<◌, ℤ, String, ◌==◌, nat_eq, Bool, true, false, Option, none, some, List, [], ◌∷◌, map, find,
  find-In, select, In, All, All-In, All-select, All-order_by, of_In, int_of, eqb_iff, ◌≡◌, refl,
  sym, ap, inl, inr, Bool-cases, Option-cases,
}
use retail_order_sync_hub.Config.{Settings}
use retail_order_sync_hub.Model.{OutboxEntry, Order}
use retail_order_sync_hub.World.{World}
use retail_order_sync_hub.World.Session.{session_scope}
use retail_order_sync_hub.Exec.{Exec, Result-cases, pure, ◌>>=◌}
use retail_order_sync_hub.Outbox.Processor.{flush, stored}
use retail_order_sync_hub.Outbox.Processor.Steps.{HasUniqueIds, Pointwise, In-unique}
use retail_order_sync_hub.Outbox.Queue.{others}
use retail_order_sync_hub.Outbox.Invariant.Rewritten.{Rewrites, Rewrites-refl, Pointwise-refl}
use retail_order_sync_hub.Mcp.Auth.{require_scope}
use retail_order_sync_hub.Mcp.WriteTools.{
  Reply, reset_row, is_dlq, has_id, dlq_rows, replay_row, replay_id, retry_order, order_of, drain,
  write_rows,
}
use retail_order_sync_hub.Mcp.WriteTools.Trail.{
  Tool, replay, retry, drain_all, run, body, run_lem, guarded, scope_of, name_of, call_of,
  token_arg, audit_lem,
}

module _ (max now at : ℕ) (positive : 0 < max) where
  reset-Rewrites :
      (row : OutboxEntry) → Rewrites max row (record (reset_row now row) { updated_at = at })
  reset-Rewrites row = record {
    same_id = refl;
    same_aggregate = refl;
    same_target = refl;
    consistent = λ h. (positive, ((λ e. refl), (λ e. refl)));
  }

  -- What is found among the rows that are reset is one of them, reset.
  find_reset :
      (k : ℕ) (rows : List OutboxEntry) {c : OutboxEntry}
      → find (λ (r : OutboxEntry). r.id == k) (map (reset_row now) rows) ≡ some c
      → (row : OutboxEntry) × In row rows × (row.id ≡ k) × (c ≡ reset_row now row)
  find_reset k [] h = absurd (cc)
  find_reset k (r ∷ rows) {c} h = elim (Bool-cases (r.id == k)) [
    | inl hit ↦ (r, inl refl, (eqb_iff r.id k).0 hit, sym (some-injective _ _ (rw hit at h)))
    | inr miss ↦ let (row, i, e, f) = find_reset k rows (rw miss at h) in (row, inr i, e, f)
  ]

  module _ (table rows : List OutboxEntry) (unique : HasUniqueIds table)
      (within : All (λ r. In r table) rows) where
    stored-Rewrites :
        (row : OutboxEntry)
        → In row table
        → Rewrites max row
            (stored at row (find (λ (r : OutboxEntry). r.id == row.id) (map (reset_row now) rows)))
    stored-Rewrites row i =
        elim (Option-cases
          (find (λ (r : OutboxEntry). r.id == row.id) (map (reset_row now) rows))) [
            | inl miss ↦ rw miss (Rewrites-refl max row)
            | inr (c, hit) ↦
                let (r, j, e, f) = find_reset row.id rows hit in
                let same =
                  In-unique r row table unique (of_In (λ r. In r table) r rows within j) i e in
                rw hit (
                  rw f (
                    subst
                      (λ (s : OutboxEntry).
                        Rewrites max row (record (reset_row now s) { updated_at = at }))
                      (sym same) (reset-Rewrites row)))
          ]

    flush-Rewrites :
        (part : List OutboxEntry)
        → All (λ r. In r table) part
        → Pointwise (Rewrites max) part (flush at (map (reset_row now) rows) part)
    unfolding flush
    flush-Rewrites [] h = tt
    flush-Rewrites (row ∷ part) (i, h) = (stored-Rewrites row i, flush-Rewrites part h)

-- The outbox is rewritten in its places, and the other tables and the sequences are as they were.
pub record Resets {E : Type 0} (max : ℕ) (w w' : World E) : Type 0 where
  pub rows : Pointwise (Rewrites max) w.db.outbox w'.db.outbox
  pub rest : others w' ≡ others w

module _ {E : Type 0} (max : ℕ) where
  Resets-refl : (w : World E) → Resets max w w
  Resets-refl w = record { rows = Pointwise-refl max w.db.outbox; rest = refl }

  Resets-session_scope :
      (m : Exec (World E) Reply) (w : World E)
      → Resets max w (m w).1
      → Resets max w (session_scope m w).1
  unfolding session_scope
  Resets-session_scope m w h = elim (Result-cases (m w).0) [
    | inl (r, e) ↦ rw e h
    | inr (x, e) ↦ rw e (record {
      rows = Pointwise-refl max w.db.outbox;
      rest =
          ap (λ s. (s, w.db.webhook_log, w.db.webhook_dedup, w.db.orders)) (ap (λ q. q.0) h.rest);
    })
  ]

module _ {E : Type 0} (max : ℕ) (positive : 0 < max) (w : World E)
    (unique : HasUniqueIds w.db.outbox) where
  Resets-write_rows :
      (rows : List OutboxEntry)
      → All (λ r. In r w.db.outbox) rows
      → Resets max w (write_rows (map (reset_row w.clock) rows) w)
  unfolding write_rows
  Resets-write_rows rows within = record {
    rows =
        flush-Rewrites max w.clock w.clock positive w.db.outbox rows unique within w.db.outbox
          (All-In w.db.outbox);
    rest = refl;
  }

  Resets-replay_row :
      (oid : ℤ) (found : Option OutboxEntry)
      → ((row : OutboxEntry) → found ≡ some row → In row w.db.outbox)
      → Resets max w (replay_row oid found w).1
  unfolding replay_row
  Resets-replay_row oid none within = Resets-refl max w
  Resets-replay_row oid (some row) within = elim (Bool-cases (is_dlq row)) [
    | inl dead ↦ rw dead (Resets-write_rows (row ∷ []) (within row refl, tt))
    | inr alive ↦ rw alive (Resets-refl max w)
  ]

  Resets-retry_order :
      (id : String) (order : Option Order) → Resets max w (retry_order id order w).1
  unfolding retry_order
  Resets-retry_order id none = Resets-refl max w
  Resets-retry_order id (some order) =
      Resets-write_rows _ (All-select (λ r. In r w.db.outbox) _ w.db.outbox (All-In w.db.outbox))

  Resets-drain : (dry_run : Bool) → Resets max w (drain dry_run w).1
  unfolding drain dlq_rows
  Resets-drain true = Resets-refl max w
  Resets-drain false = Resets-write_rows _ (
      All-order_by (λ (r : OutboxEntry). r.id) (λ r. In r w.db.outbox) (select is_dlq w.db.outbox)
        (All-select (λ r. In r w.db.outbox) is_dlq w.db.outbox (All-In w.db.outbox)))

  Resets-replay_id : (id : String) (oid : Option ℤ) → Resets max w (replay_id id oid w).1
  unfolding replay_id
  Resets-replay_id id none = unfold pure in Resets-refl max w
  Resets-replay_id id (some oid) = Resets-session_scope max _ w (
      Resets-replay_row oid (find (has_id oid) w.db.outbox)
        (λ row e. (find-In (has_id oid) w.db.outbox e).0))

  module _ (listing : List String → String) (settings : Settings) where
    Resets-body : (t : Tool) → Resets max w (body listing settings t w).1
    unfolding body
    Resets-body (replay id token call) = Resets-replay_id id (int_of id)
    Resets-body (retry id token call) =
        Resets-session_scope max _ w (Resets-retry_order id (order_of id w.db.orders))
    Resets-body (drain_all dry_run token call) = Resets-session_scope max _ w (Resets-drain dry_run)

    Resets-guarded : (t : Tool) → Resets max w (guarded listing settings t w).1
    unfolding ◌>>=◌
    Resets-guarded t =
        elim (Result-cases (require_scope listing settings (token_arg t) (scope_of t))) [
          | inl (u, granted) ↦ rw granted (Resets-body t)
          | inr (x, denied) ↦ rw denied (Resets-refl max w)
        ]

    -- A call of a write tool, whatever its token, resets rows of the outbox in their places at most.
    pub run-Resets : (t : Tool) → Resets max w (run listing settings t w).1
    run-Resets t = rw (run_lem listing settings t) (
        let h = Resets-guarded t in
        rw
          (audit_lem listing settings (scope_of t) (name_of t) (call_of t)
            (guarded listing settings t) w)
          (record { rows = h.rows; rest = h.rest }))
