-- ===== src/Scripts/FloodDlq.antt =====
-- scripts/chaos/flood_dlq.py: dead letters for a demonstration.
use Prim.Native.String.{[], ◌∷◌}
use retail_order_sync_hub.Base.{
  ℕ, zero, suc, ◌+◌, ◌-◌, ◌*◌, ◌%◌, pos, String, ◌==◌, string_eq, Bool, some, List, [], ◌∷◌, cat,
  decimal, eqb, ltb, if◌then◌else◌,
}
use retail_order_sync_hub.Json.{Value, nil, cons, int, str, arr, dict}
use retail_order_sync_hub.Services.{outside}
use retail_order_sync_hub.Secrets.{upper}
use retail_order_sync_hub.Model.{OutboxEntry, Status}
use retail_order_sync_hub.World.{World}
use retail_order_sync_hub.Exec.{Exc, Exec, pure, gets, ◌>>=◌, ◌>>◌}
use retail_order_sync_hub.Scripts.{Dice, add_all}

abbrev error_templates : List String
error_templates =
    "HTTPStatusError: 503 Service Unavailable after 4 attempts"
    ∷ "httpx.ConnectTimeout: timed out connecting to api.mercadolibre.com:443"
    ∷ "HTTPStatusError: 429 Too Many Requests — rate limit exceeded"
    ∷ "JSONDecodeError: Expecting value: line 1 column 1 (upstream returned HTML error page)"
    ∷ "HTTPStatusError: 401 Unauthorized — token expired mid-flight" ∷ []

-- s[:2]
abbrev first_two : String → String
first_two (a ∷ b ∷ s) = a ∷ b ∷ ""
first_two s = s

-- f"{n:05d}"
abbrev five_digits : ℕ → String
five_digits n =
    if ltb n 10
    then cat ("0000" ∷ decimal n ∷ [])
    else if ltb n 100
    then cat ("000" ∷ decimal n ∷ [])
    else if ltb n 1000
    then cat ("00" ∷ decimal n ∷ [])
    else if ltb n 10000
    then cat ("0" ∷ decimal n ∷ [])
    else decimal n

-- The numbers and texts that are drawn for an entry.
pub record Draw : Type 0 where
  pub total_amount : Value
  pub sku : ℕ
  pub qty : ℕ
  pub unit_price : Value
  pub minutes : ℕ
  pub error : String

-- The payload of `_make_dlq_entry`.
abbrev pub dlq_payload : ℕ → String → Draw → Value
dlq_payload order_id adapter d = dict (
    ("odoo_order_id", int (pos order_id))
    ∷ (
      "marketplace_order_id",
      str (cat (upper (first_two adapter) ∷ "-" ∷ five_digits order_id ∷ [])),
    )
    ∷ ("customer_name", str (cat ("Cliente Demo " ∷ decimal order_id ∷ [])))
    ∷ ("total_amount", d.total_amount)
    ∷ ("currency", str "CLP")
    ∷ (
      "items",
      arr (
          cons
            (dict (
              ("sku", str (cat ("SKU-" ∷ decimal d.sku ∷ [])))
              ∷ ("qty", int (pos d.qty))
              ∷ ("unit_price", d.unit_price)
              ∷ []))
            nil),
    )
    ∷ [])

abbrev pub minute : ℕ
minute = 60000000

-- The entry with what was drawn for it. The insert sets the id.
abbrev pub dlq_entry : ℕ → String → ℕ → Draw → OutboxEntry
dlq_entry order_id adapter created_at d = record {
  id = 0;
  aggregate_id = decimal order_id;
  aggregate_type = "order";
  target_adapter = adapter;
  payload = dlq_payload order_id adapter d;
  status = Status.dlq;
  attempts = 4;
  next_attempt_at = created_at;
  error_log = some d.error;
  created_at = created_at;
  updated_at = created_at + d.minutes * minute;
}

-- adapters[i % len(adapters)], of "both" or of one name
unfoldable pub adapter_at : String → ℕ → String
adapter_at name i =
    if name == "both" then (if eqb (i % 2) 0 then "mercadolibre" else "paris") else name

module _ {E : Type 0} (dice : Dice E) where
  unfoldable pub draw : Exec E Draw
  draw = do
    total_amount ← dice.amount 15000 350000
    sku ← dice.randint 1000 9999
    qty ← dice.randint 1 5
    unit_price ← dice.amount 5000 80000
    minutes ← dice.randint 5 120
    error ← dice.choice error_templates
    pure (record {
      total_amount = total_amount;
      sku = sku;
      qty = qty;
      unit_price = unit_price;
      minutes = minutes;
      error = error;
    })

  -- `_make_dlq_entry`
  unfoldable pub make_dlq_entry : ℕ → String → ℕ → Exec E OutboxEntry
  unfolding draw
  make_dlq_entry order_id adapter created_at = do
    d ← draw
    pure (dlq_entry order_id adapter created_at d)

  -- The entries from the `i`-th on, so many of them.
  unfoldable pub dlq_entries : String → ℕ → ℕ → ℕ → ℕ → Exec E (List OutboxEntry)
  unfolding make_dlq_entry adapter_at
  dlq_entries adapter now base i zero = pure []
  dlq_entries adapter now base i (suc n) = do
    hours ← dice.randint 1 48
    entry ← make_dlq_entry (base + i) (adapter_at adapter i) (now - hours * 60 * minute)
    entries ← dlq_entries adapter now base (i + 1) n
    pure (entry ∷ entries)

module _ {E : Type 0} (violation : Exc) (dice : Dice E) where
  -- `main`, of a positive count
  unfoldable pub flood_dlq : ℕ → String → Bool → Exec (World E) (List OutboxEntry)
  unfolding outside dlq_entries
  flood_dlq n adapter dry_run = do
    base ← outside (dice.randint 10000 90000)
    now ← gets (λ (w : World E). w.clock)
    entries ← outside (dlq_entries dice adapter now base 0 n)
    if dry_run then pure entries else (do add_all violation entries; pure entries)
