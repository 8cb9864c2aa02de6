-- ===== src/BqSync/Batches.antt =====
-- The batches of a synchronization: they are the rows, in order, cut into pieces of bounded size.
use mathlib.Core.List.{append_assoc}
use retail_order_sync_hub.Base.{
  ℕ, ◌+◌, ◌≤◌, ◌<◌, String, true, false, List, [], ◌∷◌, ◌++◌, length, length-append, All, leb,
  if◌then◌else◌, ◌≡◌, refl, sym, ap, ◌∙◌, inl, inr, Bool-cases, arith,
}
use retail_order_sync_hub.Json.{Value}
use retail_order_sync_hub.Exec.{Result-cases, Exec, pure, ◌>>=◌}
use retail_order_sync_hub.BqSync.{BigQuery, insert_rows, insert_full, insert_last, insert_batches}

-- The batch that is left at the end.
abbrev pub rest_of : List Value → List (List Value)
rest_of [] = []
rest_of (row ∷ batch) = (row ∷ batch) ∷ []

-- The rows behind an room batch, cut where the batch is full.
unfoldable pub chunks : ℕ → List Value → List Value → List (List Value)
chunks bs [] batch = rest_of batch
chunks bs (row ∷ rows) batch =
    let full = chunks bs rows [] in
    let room = chunks bs rows (batch ++ row ∷ []) in
    if leb bs (length (batch ++ row ∷ [])) then (batch ++ row ∷ []) ∷ full else room

abbrev pub concat : List (List Value) → List Value
concat [] = []
concat (c ∷ cs) = c ++ concat cs

abbrev pub IsBatch : ℕ → List Value → Type 0
IsBatch bs c = (1 ≤ length c) × (length c ≤ bs)

concat-chunks : (bs : ℕ) (rows batch : List Value) → concat (chunks bs rows batch) ≡ batch ++ rows
unfolding chunks
concat-chunks bs [] [] = refl
concat-chunks bs [] (b ∷ batch) = refl
concat-chunks bs (row ∷ rows) batch = elim (Bool-cases (leb bs (length (batch ++ row ∷ [])))) [
  | inl full ↦ rw full (
      ap (λ t. (batch ++ row ∷ []) ++ t) (concat-chunks bs rows [])
      ∙ append_assoc batch (row ∷ []) rows)
  | inr room ↦
      rw room (concat-chunks bs rows (batch ++ row ∷ []) ∙ append_assoc batch (row ∷ []) rows)
]

chunks-IsBatch :
    (bs : ℕ) (rows batch : List Value) → length batch < bs → All (IsBatch bs) (chunks bs rows batch)
unfolding chunks
chunks-IsBatch bs [] [] h = tt
chunks-IsBatch bs [] (b ∷ batch) h = ((omega arith, omega arith), tt)
chunks-IsBatch bs (row ∷ rows) batch h =
    let n : length (batch ++ row ∷ []) ≡ length batch + 1 = length-append batch (row ∷ []) in
    elim (Bool-cases (leb bs (length (batch ++ row ∷ [])))) [
      | inl full ↦
          rw full ((omega (arith, n), omega (arith, n)), chunks-IsBatch bs rows [] (omega arith))
      | inr room ↦ rw room (chunks-IsBatch bs rows (batch ++ row ∷ []) (ground arith))
    ]

module _ {E : Type 0} (bq : BigQuery E) (ref : String) where
  -- One insertion for each piece.
  unfoldable pub insert_all : List (List Value) → ℕ → Exec E ℕ
  insert_all [] total = pure total
  insert_all (c ∷ cs) total = do n ← insert_rows bq ref c; insert_all cs (total + n)

  bind_cong :
      {A : Type 0} (m : Exec E A) (f g : A → Exec E ℕ) (e : E)
      → ((a : A) (e' : E) → f a e' ≡ g a e')
      → (m >>= f) e ≡ (m >>= g) e
  unfolding ◌>>=◌
  bind_cong m f g e same = elim (Result-cases (m e).0) [
    | inl (a, h) ↦ rw h (same a (m e).1)
    | inr (x, h) ↦ rw h refl
  ]

  step_full :
      (bs : ℕ) (rows batch : List Value) (row : Value) (total : ℕ) (e : E)
      → leb bs (length (batch ++ row ∷ [])) ≡ true
      → insert_batches bq ref bs (row ∷ rows) batch total e
        ≡ (insert_rows bq ref (batch ++ row ∷ [])
              >>= (λ n. insert_batches bq ref bs rows [] (total + n)))
            e
  unfolding insert_batches ◌>>=◌ insert_full
  step_full bs rows batch row total e full =
      elim (Result-cases (insert_rows bq ref (batch ++ row ∷ []) e).0) [
        | inl (n, h) ↦ rw full (rw h refl)
        | inr (x, h) ↦ rw full (rw h refl)
      ]

  step_open :
      (bs : ℕ) (rows batch : List Value) (row : Value) (total : ℕ) (e : E)
      → leb bs (length (batch ++ row ∷ [])) ≡ false
      → insert_batches bq ref bs (row ∷ rows) batch total e
        ≡ insert_batches bq ref bs rows (batch ++ row ∷ []) total e
  unfolding insert_batches ◌>>=◌ insert_full
  step_open bs rows batch row total e room = rw room refl

  insert_all-full :
      (c : List Value) (cs : List (List Value)) (total : ℕ) (e : E)
      → insert_all (c ∷ cs) total e ≡ (insert_rows bq ref c >>= (λ n. insert_all cs (total + n))) e
  unfolding insert_all
  insert_all-full c cs total e = refl

  insert_batches_lem :
      (bs : ℕ) (rows batch : List Value) (total : ℕ) (e : E)
      → insert_batches bq ref bs rows batch total e ≡ insert_all (chunks bs rows batch) total e
  unfolding chunks
  insert_batches_lem bs [] [] total e = unfold insert_batches insert_last insert_all in refl
  insert_batches_lem bs [] (b ∷ batch) total e =
      unfold insert_batches insert_last insert_all in refl
  insert_batches_lem bs (row ∷ rows) batch total e =
      elim (Bool-cases (leb bs (length (batch ++ row ∷ [])))) [
        | inl full ↦ rw full (
            step_full bs rows batch row total e full
            ∙ bind_cong (insert_rows bq ref (batch ++ row ∷ [])) _ _ e
                (λ n e'. insert_batches_lem bs rows [] (total + n) e')
            ∙ sym (insert_all-full (batch ++ row ∷ []) (chunks bs rows []) total e))
        | inr room ↦ rw room (
            step_open bs rows batch row total e room
            ∙ insert_batches_lem bs rows (batch ++ row ∷ []) total e)
      ]

  -- The loop of a synchronization inserts batches that are, one behind the other, exactly the rows in
  -- their order; no batch is empty or larger than the batch size, which is positive.
  pub insert_batches_cut :
      (bs : ℕ) (rows : List Value) (e : E)
      → 1 ≤ bs
      → (insert_batches bq ref bs rows [] 0 e ≡ insert_all (chunks bs rows []) 0 e)
        × (concat (chunks bs rows []) ≡ rows)
        × All (IsBatch bs) (chunks bs rows [])
  insert_batches_cut bs rows e h = (
    insert_batches_lem bs rows [] 0 e,
    concat-chunks bs rows [],
    chunks-IsBatch bs rows [] (omega arith),
  )
