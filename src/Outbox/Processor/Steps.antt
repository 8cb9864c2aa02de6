-- ===== src/Outbox/Processor/Steps.antt =====
-- What the rows of a cycle become in the table: the written rows, matched with the rows before.
use mathlib.Core.Path.{subst}
use mathlib.Core.Option.{some-injective}
use retail_order_sync_hub.Base.{
  ℕ, suc, eqb, eqb_iff, none, some, List, [], ◌∷◌, map, length, select, find, order_by, In, All,
  All-In, All-select, All-take, All-order_by, of_In, ◌≡◌, ◌≢◌, refl, sym, ap, ◌∙◌, inl, inr,
  Bool-cases, Option-cases,
}
use retail_order_sync_hub.Model.{OutboxEntry}
use retail_order_sync_hub.Exec.{Result}
use retail_order_sync_hub.Adapters.Dto.{PushResult}
use retail_order_sync_hub.Outbox.Processor.{Outcome, is_due, due_rows, flush, stored}
use retail_order_sync_hub.Outbox.Processor.Entry.{Transition, succeeds, retries, dies}
use retail_order_sync_hub.Outbox.Processor.Batch.{IsDue}

-- No two rows have the same id: the table's primary key.
abbrev pub HasUniqueIds : List OutboxEntry → Type 0
HasUniqueIds [] = Unit
HasUniqueIds (row ∷ table) = All (λ s. s.id ≢ row.id) table × HasUniqueIds table

pub In-unique :
    (r s : OutboxEntry) (table : List OutboxEntry)
    → HasUniqueIds table
    → In r table
    → In s table
    → r.id ≡ s.id
    → r ≡ s
In-unique r s [] u i j e = elim i [ ]
In-unique r s (row ∷ table) (new, u) (inl p) (inl q) e = p ∙ sym q
In-unique r s (row ∷ table) (new, u) (inl p) (inr j) e =
    absurd (of_In (λ x. x.id ≢ row.id) s table new j (sym e ∙ ap (λ (x : OutboxEntry). x.id) p))
In-unique r s (row ∷ table) (new, u) (inr i) (inl q) e =
    absurd (of_In (λ x. x.id ≢ row.id) r table new i (e ∙ ap (λ (x : OutboxEntry). x.id) q))
In-unique r s (row ∷ table) (new, u) (inr i) (inr j) e = In-unique r s table u i j e

pub due_rows-In :
    (now batch_size : ℕ) (table : List OutboxEntry)
    → All (λ r. In r table) (due_rows now batch_size table)
unfolding due_rows
due_rows-In now batch_size table =
    All-take (λ r. In r table) batch_size
      (order_by (λ (r : OutboxEntry). r.id) (select (is_due now) table))
      (All-order_by (λ (r : OutboxEntry). r.id) (λ r. In r table) (select (is_due now) table)
        (All-select (λ r. In r table) (is_due now) table (All-In table)))

-- The relation holds of the rows at each position.
abbrev pub Pointwise :
    (OutboxEntry → OutboxEntry → Type 0) → List OutboxEntry → List OutboxEntry → Type 0
Pointwise R [] [] = Unit
Pointwise R (r ∷ rs) (s ∷ ss) = R r s × Pointwise R rs ss
Pointwise R [] (s ∷ ss) = ⊥
Pointwise R (r ∷ rs) [] = ⊥

module _ (max now : ℕ) where
  -- Each row of the batch has made a transition.
  abbrev pub Processed : List OutboxEntry → List (OutboxEntry × Outcome) → Type 0
  Processed [] [] = Unit
  Processed (row ∷ rows) ((row', o) ∷ results) =
      ((r : Result PushResult) × Transition max now row r row' o) × Processed rows results
  Processed [] (x ∷ results) = ⊥
  Processed (row ∷ rows) [] = ⊥

  -- What the cycle does to a row of the table: a row of the batch is due and makes a transition, any
  -- other is left as it is.
  pub data RowStep (batch : List OutboxEntry) (before after : OutboxEntry) : Type 0 where
    untouched : ¬ In before batch → after ≡ before → RowStep batch before after
    moved :
        (r : Result PushResult) (row : OutboxEntry) (o : Outcome) (at : ℕ)
        → In before batch
        → IsDue now before
        → Transition max now before r row o
        → after ≡ record row { updated_at = at }
        → RowStep batch before after

  Transition-id :
      (row : OutboxEntry) (r : Result PushResult) (row' : OutboxEntry) (o : Outcome)
      → Transition max now row r row' o
      → row'.id ≡ row.id
  Transition-id row r row' o (succeeds p e eq eo) = ap (λ (x : OutboxEntry). x.id) eq
  Transition-id row r row' o (retries e d er lt lo hi eq eo) = ap (λ (x : OutboxEntry). x.id) eq
  Transition-id row r row' o (dies e er le eq eo) = ap (λ (x : OutboxEntry). x.id) eq

  abbrev rows_of : List (OutboxEntry × Outcome) → List OutboxEntry
  rows_of = map (λ (r : OutboxEntry × Outcome). r.0)

  -- Every row of the batch has its changed row, and a changed row that is found is one of the batch's.
  find_batch :
      (k : ℕ) (rows : List OutboxEntry) (results : List (OutboxEntry × Outcome))
      → Processed rows results
      → (row : OutboxEntry) → In row rows
      → row.id ≡ k
      → find (λ (r : OutboxEntry). eqb r.id k) (rows_of results) ≢ none
  find_batch k [] results p row i e = elim i [ ]
  find_batch k (r ∷ rows) [] p row i e = elim p [ ]
  find_batch k (r ∷ rows) ((r', o) ∷ results) ((x, t), p) row (inl same) e =
      let id : r'.id ≡ k =
        Transition-id r x r' o t ∙ sym (ap (λ (x : OutboxEntry). x.id) same) ∙ e in
      rw ((eqb_iff r'.id k).1 id) (λ n. cc)
  find_batch k (r ∷ rows) ((r', o) ∷ results) (t, p) row (inr i) e =
      elim (Bool-cases (eqb r'.id k)) [
        | inl hit ↦ rw hit (λ n. cc)
        | inr miss ↦ rw miss (find_batch k rows results p row i e)
      ]

  find_moved :
      (P : OutboxEntry → Type 0) (k : ℕ) (rows : List OutboxEntry)
      (results : List (OutboxEntry × Outcome))
      → Processed rows results
      → All P rows
      → {c : OutboxEntry} → find (λ (r : OutboxEntry). eqb r.id k) (rows_of results) ≡ some c
      → (row : OutboxEntry) × P row
        × (row.id ≡ k)
        × ((r : Result PushResult) × ((o : Outcome) × Transition max now row r c o))
  find_moved P k [] [] p h f = absurd (cc)
  find_moved P k [] (x ∷ results) p h f = elim p [ ]
  find_moved P k (r ∷ rows) [] p h f = elim p [ ]
  find_moved P k (r ∷ rows) ((r', o) ∷ results) ((x, t), p) (q, h) f =
      elim (Bool-cases (eqb r'.id k)) [
        | inl hit ↦
            let same = some-injective _ _ (rw hit at f) in
            (
              r,
              q,
              sym (Transition-id r x r' o t) ∙ (eqb_iff r'.id k).0 hit,
              (x, (o, subst (λ c. Transition max now r x c o) same t)),
            )
        | inr miss ↦ find_moved P k rows results p h (rw miss at f)
      ]

  pub length-Processed :
      (rows : List OutboxEntry) (results : List (OutboxEntry × Outcome))
      → Processed rows results
      → length results ≡ length rows
  length-Processed [] [] p = refl
  length-Processed [] (x ∷ results) p = elim p [ ]
  length-Processed (r ∷ rows) [] p = elim p [ ]
  length-Processed (r ∷ rows) ((r', o) ∷ results) (t, p) = ap suc (length-Processed rows results p)

  module _ (table batch : List OutboxEntry) (results : List (OutboxEntry × Outcome)) (clock : ℕ)
      (unique : HasUniqueIds table) (due : All (IsDue now) batch)
      (within : All (λ r. In r table) batch) (processed : Processed batch results) where
    flush-RowStep :
        (row : OutboxEntry)
        → In row table
        → RowStep batch row
            (stored clock row (find (λ (r : OutboxEntry). eqb r.id row.id) (rows_of results)))
    flush-RowStep row i =
        elim (Option-cases (find (λ (r : OutboxEntry). eqb r.id row.id) (rows_of results))) [
          | inl miss ↦ rw miss (
              RowStep.untouched (λ j. find_batch row.id batch results processed row j refl miss)
                refl)
          | inr (c, hit) ↦
              let (r, p, id, (x, (o, t))) =
                find_moved (λ r. In r batch) row.id batch results processed (All-In batch) hit in
              let same =
                In-unique r row table unique (of_In (λ r. In r table) r batch within p) i id in
              rw hit (
                RowStep.moved x c o clock (subst (λ r. In r batch) same p)
                  (subst (IsDue now) same (of_In (IsDue now) r batch due p))
                  (subst (λ r. Transition max now r x c o) same t) refl)
        ]

    pub flush-Pointwise :
        (rows : List OutboxEntry)
        → All (λ r. In r table) rows
        → Pointwise (RowStep batch) rows (flush clock (rows_of results) rows)
    unfolding flush
    flush-Pointwise [] h = tt
    flush-Pointwise (row ∷ rows) (i, h) = (flush-RowStep row i, flush-Pointwise rows h)
