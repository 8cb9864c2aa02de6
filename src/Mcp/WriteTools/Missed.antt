-- ===== src/Mcp/WriteTools/Missed.antt =====
-- A retry looks the entries up by the order's internal id, and the outbox has them under their id in
-- the ERP.
use text.Mathlib.TextLemmas.{cons-append}
use Prim.Native.String
use mathlib.Core.Option.{some-injective}
use retail_order_sync_hub.Base.{
  ℕ, suc, ℤ, pos, negsuc, String, ◌==◌, string_eq, false, true, some, List, [], ◌∷◌, select,
  decimal, str_int, int_of, int_of-decimal, all_digits, all_digits-decimal, ◌≡◌, ◌≢◌, refl, sym, ap,
  ◌∙◌, inl, inr, Bool-cases, All, eq_iff, cat,
}
use retail_order_sync_hub.Json.{bool, int, str, dict}
use retail_order_sync_hub.Model.{Order, OutboxEntry, status_eq}
use retail_order_sync_hub.World.{World}
use retail_order_sync_hub.Exec.{ok}
use retail_order_sync_hub.Outbox.Processor.{flush}
use retail_order_sync_hub.Mcp.WriteTools.{is_retried, retry_order, write_rows, json}

-- The entry of some order of the ERP that has another id than `n`.
abbrev pub IsOfAnother : ℕ → OutboxEntry → Type 0
IsOfAnother n row = (id : ℤ) × (row.aggregate_id ≡ str_int id) × (id ≢ pos n)

int_of-injective : (m n : ℕ) → decimal m ≡ decimal n → pos m ≡ pos n
int_of-injective m n e =
    some-injective _ _ (sym (int_of-decimal m) ∙ ap int_of e ∙ int_of-decimal n)

with_sign : (s : String) → all_digits (String.◌++◌ "-" s) ≢ true
unfolding all_digits
with_sign s h =
    let e : all_digits (String.◌∷◌ "-" (String.◌++◌ "" s)) ≡ true =
      sym (ap all_digits (cons-append "-" "" s)) ∙ h in
    cc e

-- No text of digits starts with a sign.
negative_ne : (m n : ℕ) → str_int (negsuc m) ≢ decimal n
negative_ne m n e =
    let signed : all_digits (str_int (negsuc m)) ≡ true = ap all_digits e ∙ all_digits-decimal n in
    with_sign (decimal (suc m)) (unfold str_int in signed)

str_int-eq-decimal : (id : ℤ) (n : ℕ) → str_int id ≡ decimal n → id ≡ pos n
str_int-eq-decimal (pos m) n e = int_of-injective m n (unfold str_int in e)
str_int-eq-decimal (negsuc m) n e = absurd (negative_ne m n e)

other_aggregate :
    (n : ℕ) (row : OutboxEntry) → IsOfAnother n row → (row.aggregate_id == decimal n) ≡ false
other_aggregate n row (id, e, other) = elim (Bool-cases (row.aggregate_id == decimal n)) [
  | inl same ↦
      absurd
        (other (str_int-eq-decimal id n (sym e ∙ (eq_iff row.aggregate_id (decimal n)).0 same)))
  | inr differ ↦ differ
]

select-missed :
    (n : ℕ) (rows : List OutboxEntry)
    → All (IsOfAnother n) rows
    → select (is_retried (decimal n)) rows ≡ []
unfolding is_retried
select-missed n [] h = refl
select-missed n (row ∷ rows) (p, h) = rw (other_aggregate n row p) (select-missed n rows h)

flush-nothing : (now : ℕ) (table : List OutboxEntry) → flush now [] table ≡ table
unfolding flush
flush-nothing now [] = refl
flush-nothing now (row ∷ table) = ap (λ t. row ∷ t) (flush-nothing now table)

module _ {E : Type 0} (order_id : String) (order : Order) (w : World E) where
  -- A retry of an order whose internal id is the id of none of the ERP's orders in the outbox says that
  -- the order is queued again, and resets no entry: nothing changes.
  pub retry_order-missed :
      All (IsOfAnother order.internal_id) w.db.outbox
      → retry_order order_id (some order) w ≡ (
        ok (
            json (
              dict (
                ("retried", bool true)
                ∷ ("order_id", str order_id)
                ∷ ("internal_id", int (pos order.internal_id))
                ∷ ("entries_reset", int (pos 0))
                ∷ (
                  "message",
                  str (cat ("Order " ∷ decimal order.internal_id ∷ " re-queued for sync." ∷ [])),
                )
                ∷ []))),
        w,
      )
  unfolding retry_order write_rows
  retry_order-missed h =
      rw (select-missed order.internal_id w.db.outbox h)
        (rw (flush-nothing w.clock w.db.outbox) refl)
