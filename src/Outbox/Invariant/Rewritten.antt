-- ===== src/Outbox/Invariant/Rewritten.antt =====
-- Rows that are rewritten in their places: what keeps the keys of the table.
use retail_order_sync_hub.Base.{
  ℕ, ◌<◌, String, ◌==◌, string_eq, ◌&&◌, ◌||◌, List, [], ◌∷◌, any, All, ◌≡◌, ◌≢◌, refl, sym, ap,
  ◌∙◌,
}
use retail_order_sync_hub.Model.{OutboxEntry}
use retail_order_sync_hub.Outbox.Enqueue.{has_key}
use retail_order_sync_hub.Outbox.Enqueue.Insert.{HasUniqueKeys}
use retail_order_sync_hub.Outbox.Processor.Steps.{HasUniqueIds, Pointwise}
use retail_order_sync_hub.Outbox.Invariant.{IsConsistent, IsValid}

-- The row has the keys that it had, and is consistent if it was.
pub record Rewrites (max : ℕ) (before after : OutboxEntry) : Type 0 where
  pub same_id : after.id ≡ before.id
  pub same_aggregate : after.aggregate_id ≡ before.aggregate_id
  pub same_target : after.target_adapter ≡ before.target_adapter
  pub consistent : IsConsistent max before → IsConsistent max after

pub Pointwise-mono :
    (R S : OutboxEntry → OutboxEntry → Type 0) (xs ys : List OutboxEntry)
    → ((x y : OutboxEntry) → R x y → S x y)
    → Pointwise R xs ys
    → Pointwise S xs ys
Pointwise-mono R S [] [] f p = tt
Pointwise-mono R S (x ∷ xs) (y ∷ ys) f (r, p) = (f x y r, Pointwise-mono R S xs ys f p)
Pointwise-mono R S [] (y ∷ ys) f p = p
Pointwise-mono R S (x ∷ xs) [] f p = p

module _ (max : ℕ) where
  pub Rewrites-refl : (row : OutboxEntry) → Rewrites max row row
  Rewrites-refl row = record {
    same_id = refl;
    same_aggregate = refl;
    same_target = refl;
    consistent = λ h. h;
  }

  pub Pointwise-refl : (rows : List OutboxEntry) → Pointwise (Rewrites max) rows rows
  Pointwise-refl [] = tt
  Pointwise-refl (row ∷ rows) = (Rewrites-refl row, Pointwise-refl rows)

  abbrev Table : List OutboxEntry → List OutboxEntry → Type 0
  Table = Pointwise (Rewrites max)

  -- A property that a rewriting hands on holds of every row again.
  All-Rewrites :
      (P : OutboxEntry → Type 0) (xs ys : List OutboxEntry)
      → ((x y : OutboxEntry) → Rewrites max x y → P x → P y)
      → Table xs ys
      → All P xs
      → All P ys
  All-Rewrites P [] [] f t h = tt
  All-Rewrites P (x ∷ xs) (y ∷ ys) f (r, t) (p, h) = (f x y r p, All-Rewrites P xs ys f t h)
  All-Rewrites P [] (y ∷ ys) f t h = absurd t
  All-Rewrites P (x ∷ xs) [] f t h = absurd t

  has_key-Rewrites :
      (aggregate target : String) (x y : OutboxEntry)
      → Rewrites max x y
      → has_key aggregate target y ≡ has_key aggregate target x
  unfolding has_key
  has_key-Rewrites aggregate target x y r =
      ap (λ a. (a == aggregate) && (y.target_adapter == target)) r.same_aggregate
      ∙ ap (λ t. (x.aggregate_id == aggregate) && (t == target)) r.same_target

  any-Rewrites :
      (aggregate target : String) (xs ys : List OutboxEntry)
      → Table xs ys
      → any (has_key aggregate target) ys ≡ any (has_key aggregate target) xs
  any-Rewrites aggregate target [] [] t = refl
  any-Rewrites aggregate target (x ∷ xs) (y ∷ ys) (r, t) =
      ap (λ b. b || any (has_key aggregate target) ys) (has_key-Rewrites aggregate target x y r)
      ∙ ap (λ b. has_key aggregate target x || b) (any-Rewrites aggregate target xs ys t)
  any-Rewrites aggregate target [] (y ∷ ys) t = absurd t
  any-Rewrites aggregate target (x ∷ xs) [] t = absurd t

  ids-Rewrites : (xs ys : List OutboxEntry) → Table xs ys → HasUniqueIds xs → HasUniqueIds ys
  ids-Rewrites [] [] t u = tt
  ids-Rewrites (x ∷ xs) (y ∷ ys) (r, t) (new, u) = (
    All-Rewrites (λ s. s.id ≢ y.id) xs ys (λ a b q ne e. ne (sym q.same_id ∙ e)) t
        (rw r.same_id new),
    ids-Rewrites xs ys t u,
  )
  ids-Rewrites [] (y ∷ ys) t u = absurd t
  ids-Rewrites (x ∷ xs) [] t u = absurd t

  keys-Rewrites : (xs ys : List OutboxEntry) → Table xs ys → HasUniqueKeys xs → HasUniqueKeys ys
  keys-Rewrites [] [] t u = tt
  keys-Rewrites (x ∷ xs) (y ∷ ys) (r, t) (new, u) = (
    rw (r.same_aggregate, r.same_target)
        (any-Rewrites x.aggregate_id x.target_adapter xs ys t ∙ new),
    keys-Rewrites xs ys t u,
  )
  keys-Rewrites [] (y ∷ ys) t u = absurd t
  keys-Rewrites (x ∷ xs) [] t u = absurd t

  -- A table whose rows are rewritten in their places is valid if it was.
  pub IsValid-Rewrites :
      (xs ys : List OutboxEntry) (next : ℕ)
      → Table xs ys
      → IsValid max (xs, next)
      → IsValid max (ys, next)
  IsValid-Rewrites xs ys next t v = record {
    consistent = All-Rewrites (IsConsistent max) xs ys (λ x y r h. r.consistent h) t v.consistent;
    drawn = All-Rewrites (λ r. r.id < next) xs ys (λ x y r lt. rw r.same_id lt) t v.drawn;
    unique_ids = ids-Rewrites xs ys t v.unique_ids;
    unique_keys = keys-Rewrites xs ys t v.unique_keys;
  }
