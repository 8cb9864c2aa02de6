-- ===== src/Scripts/SyncDemo.antt =====
-- scripts/sync_demo.py: pending entries that the worker is to fail.
use retail_order_sync_hub.Base.{
  ℕ, zero, suc, ◌+◌, ◌-◌, ◌%◌, pos, String, none, List, [], ◌∷◌, length, select, cat, decimal, eqb,
  if◌then◌else◌,
}
use retail_order_sync_hub.Json.{Value, nil, cons, int, str, arr, dict}
use retail_order_sync_hub.Config.{Settings}
use retail_order_sync_hub.Services.{outside}
use retail_order_sync_hub.Model.{OutboxEntry, Status}
use retail_order_sync_hub.World.{World}
use retail_order_sync_hub.Exec.{Exc, Exec, pure, gets, ◌>>=◌, ◌>>◌}
use retail_order_sync_hub.Scripts.{Dice, add_all}

-- The payload of `_make_pending_entry`.
abbrev pub pending_payload : ℕ → ℕ → ℕ → Value
pending_payload order_id sku qty = dict (
    ("odoo_order_id", int (pos order_id))
    ∷ ("buyer", str (cat ("Cliente Demo " ∷ decimal order_id ∷ [])))
    ∷ ("external_ref", str (cat ("odoo-" ∷ decimal order_id ∷ [])))
    ∷ (
      "items",
      arr (
          cons (dict (("sku", str (cat ("SKU-" ∷ decimal sku ∷ []))) ∷ ("qty", int (pos qty)) ∷ []))
            nil),
    )
    ∷ [])

-- The entry with its drawn numbers. The insert sets the id.
abbrev pub pending_entry : ℕ → String → ℕ → ℕ → ℕ → ℕ → OutboxEntry
pending_entry order_id adapter attempts now sku qty = record {
  id = 0;
  aggregate_id = decimal order_id;
  aggregate_type = "order";
  target_adapter = adapter;
  payload = pending_payload order_id sku qty;
  status = Status.pending;
  attempts = attempts;
  next_attempt_at = now;
  error_log = none;
  created_at = now;
  updated_at = now;
}

-- near_dlq = settings.outbox_max_attempts - 1, of a limit of 1 at least
abbrev pub near_dlq : Settings → ℕ
near_dlq settings = settings.outbox_max_attempts - 1

-- The attempts of the `i`-th entry.
unfoldable pub start_attempts : Settings → ℕ → ℕ
start_attempts settings i = if eqb (i % 2) 0 then 0 else near_dlq settings

module _ {E : Type 0} (dice : Dice E) (settings : Settings) (adapter : String) (now : ℕ) where
  -- `_make_pending_entry`
  unfoldable pub make_pending_entry : ℕ → ℕ → Exec E OutboxEntry
  make_pending_entry order_id attempts = do
    sku ← dice.randint 1000 9999
    qty ← dice.randint 1 5
    pure (pending_entry order_id adapter attempts now sku qty)

  -- The entries from the `i`-th on, so many of them.
  unfoldable pub pending_entries : ℕ → ℕ → ℕ → Exec E (List OutboxEntry)
  unfolding make_pending_entry start_attempts
  pending_entries base i zero = pure []
  pending_entries base i (suc n) = do
    entry ← make_pending_entry (base + i) (start_attempts settings i)
    entries ← pending_entries base (i + 1) n
    pure (entry ∷ entries)

module _ {E : Type 0} (violation : Exc) (dice : Dice E) (settings : Settings) where
  -- `main`, with the two numbers that it prints
  unfoldable pub sync_demo : ℕ → String → Exec (World E) (ℕ × ℕ)
  unfolding outside pending_entries
  sync_demo n adapter = do
    base ← outside (dice.randint 700000 800000)
    now ← gets (λ (w : World E). w.clock)
    entries ← outside (pending_entries dice settings adapter now base 0 n)
    add_all violation entries
    let n_retry = length (select (λ (e : OutboxEntry). eqb e.attempts 0) entries)
    pure (n_retry, length entries - n_retry)
