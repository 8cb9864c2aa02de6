-- ===== src/Mcp/Server/Window.antt =====
-- `find_failed_orders`: the window that its text names, and the orders that it lists.
use Prim.Native.Char.{Char}
use Prim.Native.String
use Prim.Native.String.{[], ◌∷◌}
use retail_order_sync_hub.Base.{
  ℕ, ◌+◌, ◌<◌, ℤ, pos, negsuc, String, ◌==◌, string_eq, Bool, true, false, ◌&&◌, ◌||◌, Option, none,
  some, List, [], ◌∷◌, leb, length, map, decimal, ◌≡◌, ◌⊎◌,
}
use retail_order_sync_hub.Json.{Value, int, str, arr, items, dict, opt_str}
use retail_order_sync_hub.Model.{Order}
use retail_order_sync_hub.World.{World}

-- A text with one more character.
abbrev snoc : String → Char → String
snoc s c = String.◌++◌ s (c ∷ "")

is_full : String → Bool
is_full [] = false
is_full (c ∷ s) = true

-- The window's text `{n}{unit}`.
abbrev pub window : ℕ → Char → String
window n c = snoc (decimal n) c

-- The length of an hour or of a day.
abbrev pub IsUnit : Char → ℕ → Type 0
IsUnit c unit = ((c ≡ "h") × (unit ≡ 3600000000)) ⊎ ((c ≡ "d") × (unit ≡ 86400000000))

-- The time lies so long before now.
abbrev pub IsBefore : ℤ → ℕ → ℕ → Type 0
IsBefore (pos t) long now = t + long ≡ now
IsBefore (negsuc t) long now = now + t + 1 ≡ long

-- From the first moment of the year 1 to the last of the year 9999.
abbrev pub IsDate : ℤ → Type 0
IsDate (pos t) = t < 253402300800000000
IsDate (negsuc t) = t < 62135596800000000

-- An order that the tool is to list: created since then, never synchronized, and of the marketplace if
-- one is given.
abbrev starts : ℤ → ℕ → Bool
starts (pos since) at = leb since at
starts (negsuc since) at = true

abbrev is_null : Option ℕ → Bool
is_null none = true
is_null (some at) = false

abbrev is_wanted : Option String → String → Bool
is_wanted none marketplace = true
is_wanted (some wanted) marketplace = wanted == "" || marketplace == wanted

abbrev pub is_listed : ℤ → Option String → Order → Bool
is_listed since marketplace r =
    starts since r.created_at && is_null r.last_sync_at && is_wanted marketplace r.marketplace

module _ (iso : ℤ → String) where
  -- An order as the report shows it.
  abbrev pub shown : Order → Value
  shown r = dict (
      ("internal_id", int (pos r.internal_id))
      ∷ ("marketplace", str r.marketplace)
      ∷ ("marketplace_order_id", opt_str r.marketplace_order_id)
      ∷ ("status", str r.status)
      ∷ ("created_at", str (iso (pos r.created_at)))
      ∷ [])

  abbrev pub window_report : ℤ → Option String → List Order → Value
  window_report since marketplace rows = dict (
      ("since", str (iso since))
      ∷ ("marketplace", opt_str marketplace)
      ∷ ("count", int (pos (length rows)))
      ∷ ("orders", arr (items (map shown rows)))
      ∷ [])
