-- ===== src/Outbox/Processor/Batch.antt =====
-- A cycle of the outbox worker: which rows it takes, what is written on success, and what on a raise.
use retail_order_sync_hub.Base.{
  ℕ, ◌≤◌, String, ◌==◌, nat_eq, string_eq, true, some, List, [], ◌∷◌, length, length-take-le,
  select, order_by, All, All-take, All-order_by, ◌≡◌, refl, sym, ap, ◌∙◌, inl, inr, Bool-cases,
  arith,
}
use retail_order_sync_hub.Config.{Settings}
use retail_order_sync_hub.Services.{Runtime, Publisher, Random}
use retail_order_sync_hub.Model.{OutboxEntry, Status, Db, status_eq}
use retail_order_sync_hub.World.{World}
use retail_order_sync_hub.Exec.{Exc, ok, err, Result-cases, ok-injective, Exec, raise, ◌>>=◌}
use retail_order_sync_hub.Adapters.Dto.{OrderDto, Adapter, order_from_payload}
use retail_order_sync_hub.Outbox.Processor.{
  Outcome, Adapters, adapter_of, push_with, attempt, process_entry, process_rows, process_pending,
  write_back, is_due, due_rows,
}
use retail_order_sync_hub.Outbox.Processor.Letters.{db-process_entry}

-- A row that the query selects.
pub record IsDue (now : ℕ) (row : OutboxEntry) : Type 0 where
  pub pending : row.status ≡ Status.pending
  pub reached : row.next_attempt_at ≤ now

is_due-IsDue : (now : ℕ) (row : OutboxEntry) → is_due now row ≡ true → IsDue now row
unfolding is_due
is_due-IsDue now row h = ground arith

select-IsDue : (now : ℕ) (table : List OutboxEntry) → All (IsDue now) (select (is_due now) table)
select-IsDue now [] = tt
select-IsDue now (row ∷ table) = elim (Bool-cases (is_due now row)) [
  | inl due ↦ rw due (is_due-IsDue now row due, select-IsDue now table)
  | inr not ↦ rw not (select-IsDue now table)
]

pub due_rows-IsDue :
    (now batch_size : ℕ) (table : List OutboxEntry)
    → All (IsDue now) (due_rows now batch_size table)
unfolding due_rows
due_rows-IsDue now batch_size table =
    All-take (IsDue now) batch_size
      (order_by (λ (r : OutboxEntry). r.id) (select (is_due now) table))
      (All-order_by (λ (r : OutboxEntry). r.id) (IsDue now) (select (is_due now) table)
        (select-IsDue now table))

pub length-due_rows :
    (now batch_size : ℕ) (table : List OutboxEntry)
    → length (due_rows now batch_size table) ≤ batch_size
unfolding due_rows
length-due_rows now batch_size table = length-take-le batch_size _

-- What the worker asks of an adapter: a push leaves the outbox table alone.
abbrev pub KeepsOutbox : {E : Type 0} → Adapter E → Type 0
KeepsOutbox {E} a =
    (order : OrderDto) (w : World E) → (a.push_order order w).1.db.outbox ≡ w.db.outbox

abbrev pub AllKeepOutbox : {E : Type 0} → Adapters E → Type 0
AllKeepOutbox [] = Unit
AllKeepOutbox ((name, a) ∷ rest) = KeepsOutbox a × AllKeepOutbox rest

module _ {E : Type 0} (rt : Runtime) (random : Random E) (publisher : Publisher E)
    (settings : Settings) (adapters : Adapters E) (now : ℕ) where
  abbrev pub entry : OutboxEntry → Exec (World E) (OutboxEntry × Outcome)
  entry = process_entry rt random publisher settings adapters now

  abbrev pub rows_loop : List OutboxEntry → Exec (World E) (List (OutboxEntry × Outcome))
  rows_loop = process_rows rt random publisher settings adapters now

  outbox-push_order :
      (row : OutboxEntry) (a : Adapter E) (w : World E)
      → KeepsOutbox a
      → (push_with rt random publisher settings adapters now row (some a) w).1.db.outbox
        ≡ w.db.outbox
  unfolding push_with ◌>>=◌
  outbox-push_order row a w keeps = elim (Result-cases (order_from_payload rt row.payload)) [
    | inl (order, e) ↦ rw e (keeps order w)
    | inr (x, e) ↦ rw e
  ]

  outbox-push_with :
      (row : OutboxEntry) (name : String) (found : Adapters E) (w : World E)
      → AllKeepOutbox found
      → (push_with rt random publisher settings adapters now row
          (adapter_of name found)
          w).1.db.outbox
        ≡ w.db.outbox
  unfolding adapter_of
  outbox-push_with row name [] w keeps = unfold push_with raise in refl
  outbox-push_with row name ((k, a) ∷ rest) w (keep, keeps) = elim (Bool-cases (k == name)) [
    | inl same ↦ rw same (outbox-push_order row a w keep)
    | inr other ↦ rw other (outbox-push_with row name rest w keeps)
  ]

  outbox-entry :
      (row : OutboxEntry) (w : World E)
      → AllKeepOutbox adapters
      → (entry row w).1.db.outbox ≡ w.db.outbox
  outbox-entry row w keeps =
      ap (λ (d : Db). d.outbox) (db-process_entry rt random publisher settings adapters now row w)
      ∙ unfold attempt in outbox-push_with row row.target_adapter adapters w keeps

  -- While the loop runs the table stays as it was, whether the loop ends or raises.
  pub outbox-rows_loop :
      (rows : List OutboxEntry) (w : World E)
      → AllKeepOutbox adapters
      → (rows_loop rows w).1.db.outbox ≡ w.db.outbox
  unfolding process_rows ◌>>=◌
  outbox-rows_loop [] w keeps = refl
  outbox-rows_loop (row ∷ rows) w keeps = elim (Result-cases (entry row w).0) [
    | inl (res, e) ↦
        let w' = (entry row w).1 in
        elim (Result-cases (rows_loop rows w').0) [
          | inl (results, f) ↦
              rw e (rw f (outbox-rows_loop rows w' keeps ∙ outbox-entry row w keeps))
          | inr (x, f) ↦ rw e (rw f (outbox-rows_loop rows w' keeps ∙ outbox-entry row w keeps))
        ]
    | inr (x, e) ↦ rw e (outbox-entry row w keeps)
  ]

  -- A cycle that raises leaves every row of the outbox as it was: also the rows of the batch that
  -- have been pushed already, or have died already. A push leaves the outbox alone.
  pub process_pending_raises :
      (batch_size : ℕ) (w : World E) {x : Exc}
      → AllKeepOutbox adapters
      → (process_pending rt random publisher settings adapters now batch_size w).0 ≡ err x
      → (process_pending rt random publisher settings adapters now batch_size w).1.db.outbox
        ≡ w.db.outbox
  unfolding process_pending ◌>>=◌
  process_pending_raises batch_size w keeps h =
      let rows = due_rows now batch_size w.db.outbox in
      elim (Result-cases (rows_loop rows w).0) [
        | inl (results, f) ↦ absurd (unfold write_back in cc (f, rw f at h))
        | inr (x, f) ↦ rw f (outbox-rows_loop rows w keeps)
      ]

  -- A cycle that returns.
  pub process_pending_ok :
      (batch_size : ℕ) (w : World E) {outcomes : List (ℕ × Outcome)}
      → (process_pending rt random publisher settings adapters now batch_size w).0 ≡ ok outcomes
      → let rows = due_rows now batch_size w.db.outbox in
        (results : List (OutboxEntry × Outcome)) × ((rows_loop rows w).0 ≡ ok results)
        × (process_pending rt random publisher settings adapters now batch_size w
            ≡ write_back rt random publisher settings adapters now results (rows_loop rows w).1)
  unfolding process_pending ◌>>=◌
  process_pending_ok batch_size w h =
      elim (Result-cases (rows_loop (due_rows now batch_size w.db.outbox) w).0) [
        | inl (results, f) ↦ (results, f, rw f)
        | inr (x, f) ↦ absurd (cc (f, rw f at h))
      ]

  pub rows_loop_cons :
      (row : OutboxEntry) (rows : List OutboxEntry) (w : World E)
      {results : List (OutboxEntry × Outcome)}
      → (rows_loop (row ∷ rows) w).0 ≡ ok results
      → (res : OutboxEntry × Outcome) × (rest : List (OutboxEntry × Outcome)) × (results
          ≡ res ∷ rest)
        × ((entry row w).0 ≡ ok res)
        × ((rows_loop rows (entry row w).1).0 ≡ ok rest)
  unfolding process_rows ◌>>=◌
  rows_loop_cons row rows w h = elim (Result-cases (entry row w).0) [
    | inl (res, e) ↦ elim (Result-cases (rows_loop rows (entry row w).1).0) [
      | inl (rest, f) ↦ (res, rest, sym (ok-injective (rw f at (rw e at h))), e, f)
      | inr (x, f) ↦ absurd (cc (rw f at (rw e at h)))
    ]
    | inr (x, e) ↦ absurd (cc (rw e at h))
  ]
