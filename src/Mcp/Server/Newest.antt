-- ===== src/Mcp/Server/Newest.antt =====
-- The rows that a query with ORDER BY … DESC and LIMIT returns: the newest of those of its filter.
use retail_order_sync_hub.Base.{
  ℕ, ◌-◌, ◌≤◌, Bool, true, false, List, [], ◌∷◌, leb, length, length-take-le, take, select,
  All-select, order_by, by_key, order_by-IsSorted, In-order_by, take-IsSorted, In-select,
  select-All, All, All-In, All-mono, All-take, All-order_by, All-both, In, ◌≡◌, ◌⊎◌, inl, inr,
  Bool-cases, arith,
}
use retail_order_sync_hub.Mcp.Queries.{newest_first, greatest}

-- So many rows of the table at most, all of which pass; and each row of the table does not pass, or it
-- is there, or the rows are so many and none of them is older.
pub record IsNewest {A : Type 0} (n : ℕ) (key : A → ℕ) (p : A → Bool) (table rows : List A)
    : Type 0 where
  pub bounded : length rows ≤ n
  pub known : All (λ r. In r table) rows
  pub pass : All (λ r. p r ≡ true) rows
  pub complete :
      All
        (λ x. (p x ≡ false) ⊎ (In x rows ⊎ ((length rows ≡ n) × All (λ r. key x ≤ key r) rows)))
        table

module _ {A : Type 0} (n : ℕ) (key : A → ℕ) where
  key-greatest : (r : A) (rows : List A) → In r rows → key r ≤ greatest key rows
  unfolding greatest
  key-greatest r [] i = elim i [ ]
  key-greatest r (s ∷ rows) (inl e) = rw e (ground arith)
  key-greatest r (s ∷ rows) (inr i) = let le = key-greatest r rows i in ground arith

  older : (top a b : ℕ) → a ≤ top → b ≤ top → leb (top - b) (top - a) ≡ true → a ≤ b
  older top a b p q h = ground arith

  module _ (p : A → Bool) (table : List A) where
    abbrev pub newest : List A
    newest = take n (newest_first key (select p table))

    listed :
        (x : A)
        → In x table
        → p x ≡ true
        → In x newest ⊎ ((length newest ≡ n) × All (λ r. key x ≤ key r) newest)
    unfolding newest_first
    listed x i h =
        let found = select p table in
        let lacks = λ (r : A). greatest key found - key r in
        let sorted = order_by lacks found in
        let here = In-select p x table i h in
        elim (take-IsSorted (by_key lacks) n x sorted (order_by-IsSorted lacks found)
          (In-order_by lacks x found here)) [
            | inl there ↦ inl there
            | inr (full, before) ↦ inr (
              full,
              All-both (λ r. In r found) (λ r. by_key lacks r x ≡ true) (λ r. key x ≤ key r)
                  (take n sorted)
                  (λ r j b.
                    older (greatest key found) (key x) (key r) (key-greatest x found here)
                      (key-greatest r found j) b)
                  (All-take (λ r. In r found) n sorted
                    (All-order_by lacks (λ r. In r found) found (All-In found)))
                  before,
            )
          ]

    all_newest : (P : A → Type 0) → All P (select p table) → All P newest
    unfolding newest_first
    all_newest P h =
        All-take P n _
          (All-order_by (λ r. greatest key (select p table) - key r) P (select p table) h)

    pub newest-IsNewest : IsNewest n key p table newest
    newest-IsNewest = record {
      bounded = length-take-le n (newest_first key (select p table));
      known = all_newest (λ r. In r table) (All-select (λ r. In r table) p table (All-In table));
      pass = all_newest (λ r. p r ≡ true) (select-All p table);
      complete =
          All-mono (λ r. In r table)
            (λ x.
              (p x ≡ false)
              ⊎ (In x newest ⊎ ((length newest ≡ n) × All (λ r. key x ≤ key r) newest)))
            table
            (λ x i. elim (Bool-cases (p x)) [
              | inl pass ↦ inr (listed x i pass)
              | inr fail ↦ inl fail
            ])
            (All-In table);
    }
