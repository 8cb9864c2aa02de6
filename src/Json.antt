-- ===== src/Json.antt =====
-- The dynamic values of the program's Python: what `json.loads` returns and a JSON column holds.
use retail_order_sync_hub.Base.{
  ℤ, pos, String, ◌==◌, string_eq, eq_ℤ, Bool, true, false, not, Option, none, some, List, [], ◌∷◌,
  if◌then◌else◌,
}

-- A float is kept by what the program can see of it: `int(x)`, its truth and its text.
mutual
  pub data Value : Type 0 where
    obj : Fields → Value
    arr : Items → Value
    str : String → Value
    float : ℤ → Bool → String → Value
    int : ℤ → Value
    bool : Bool → Value
    null : Value

  pub data Fields : Type 0 where
    end : Fields
    field : String → Value → Fields → Fields

  pub data Items : Type 0 where
    nil : Items
    cons : Value → Items → Items

-- The items of a list.
abbrev pub items : List Value → Items
items [] = nil
items (v ∷ vs) = cons v (items vs)

-- A dict literal.
abbrev pub dict : List (String × Value) → Value
dict fs = obj (go fs)
  where
    go : List (String × Value) → Fields
    go [] = end
    go ((k, v) ∷ rest) = field k v (go rest)

-- d.get(k) of a dict, whose keys are distinct
abbrev pub field_of : String → Fields → Option Value
field_of k end = none
field_of k (field j v fs) = let rest = field_of k fs in if j == k then some v else rest

-- v or d: whether `v` counts as true
abbrev pub truthy : Value → Bool
truthy null = false
truthy (bool b) = b
truthy (int n) = not (eq_ℤ n (pos 0))
truthy (float n b text) = b
truthy (str s) = not (s == "")
truthy (arr nil) = false
truthy (arr (cons v vs)) = true
truthy (obj end) = false
truthy (obj (field k v fs)) = true

-- A nullable text column or field.
abbrev pub opt_str : Option String → Value
opt_str none = null
opt_str (some s) = str s

abbrev pub opt_int : Option ℤ → Value
opt_int none = null
opt_int (some n) = int n
