-- ===== src/Odoo/Client.antt =====
-- `OdooClient.upsert` of src/common/odoo.py, on the calls of the ERP that it makes.
use retail_order_sync_hub.Base.{
  ℤ, String, ◌==◌, string_eq, List, [], ◌∷◌, ◌≡◌, refl, sym, inl, inr, if◌then◌else◌,
}
use retail_order_sync_hub.Json.{Value}
use retail_order_sync_hub.Exec.{
  Exc, key_error, Result, ok, err, Result-cases, ok-injective, Exec, pure, lift, ◌>>=◌, ◌>>◌,
}

-- The fields of a record, by name.
abbrev pub Values : Type 0
Values = List (String × Value)

-- The calls by `execute_kw` of a client: `search(model, field, value)` is the search with the domain
-- `[(field, "=", value)]` and `limit=1`, `write` and `create` are those of a model, `reference` the id
-- of `check_object_reference`. `uid` is the id of the user that has authenticated.
pub record Rpc (E : Type 0) : Type 0 where
  pub uid : ℤ
  pub search : String → String → Value → Exec E (List ℤ)
  pub write : String → List ℤ → Values → Exec E (Unit {0})
  pub create : String → Values → Exec E ℤ
  pub reference : String → String → Exec E ℤ

-- values[key]
unfoldable pub value_of : String → Values → Result Value
value_of key [] = err (key_error key)
value_of key ((k, v) ∷ values) = let rest = value_of key values in if k == key then ok v else rest

module _ {E : Type 0} (rpc : Rpc E) where
  -- What follows the search.
  unfoldable pub write_or_create : String → Values → List ℤ → Exec E ℤ
  write_or_create model values [] = rpc.create model values
  write_or_create model values (id ∷ ids) = do rpc.write model (id ∷ []) values; pure id

  unfoldable pub upsert : String → String → Values → Exec E ℤ
  unfolding write_or_create
  upsert model key_field values = do
    key ← lift (value_of key_field values)
    existing ← rpc.search model key_field key
    write_or_create model values existing

-- A search changes nothing; a record that was found under the key that a write sets, and one that was
-- created where none was found, is found first under it. The ERP takes what it is sent: a write of the
-- values of a record that is there is accepted.
pub record KeepsRecords {E : Type 0} (rpc : Rpc E) : Type 0 where
  pub reads_only : (model field : String) (v : Value) (e : E) → (rpc.search model field v e).1 ≡ e
  pub written :
      (model field : String) (v : Value) (values : Values) (id : ℤ) (ids : List ℤ) (e : E)
      → value_of field values ≡ ok v
      → (rpc.search model field v e).0 ≡ ok (id ∷ ids)
      → ((rpc.write model (id ∷ []) values e).0 ≡ ok tt)
        × ((rpc.search model field v (rpc.write model (id ∷ []) values e).1).0 ≡ ok (id ∷ ids))
  pub creates :
      (model field : String) (v : Value) (values : Values) (id : ℤ) (e : E)
      → value_of field values ≡ ok v
      → (rpc.search model field v e).0 ≡ ok []
      → (rpc.create model values e).0 ≡ ok id
      → (rpc.search model field v (rpc.create model values e).1).0 ≡ ok (id ∷ [])

module _ {E : Type 0} (rpc : Rpc E) (keeps : KeepsRecords rpc) (model key_field : String)
    (values : Values) where
  upsert_of_found :
      (v : Value) (id : ℤ) (ids : List ℤ) (e : E)
      → value_of key_field values ≡ ok v
      → (rpc.search model key_field v e).0 ≡ ok (id ∷ ids)
      → upsert rpc model key_field values e ≡ (ok id, (rpc.write model (id ∷ []) values e).1)
  unfolding upsert write_or_create ◌>>=◌ pure lift
  upsert_of_found v id ids e has found =
      let accepted = (keeps.written model key_field v values id ids e has found).0 in
      rw has (rw found (rw (keeps.reads_only model key_field v e) (rw accepted refl)))

  upsert_of_missing :
      (v : Value) (e : E)
      → value_of key_field values ≡ ok v
      → (rpc.search model key_field v e).0 ≡ ok []
      → upsert rpc model key_field values e ≡ rpc.create model values e
  unfolding upsert write_or_create ◌>>=◌ lift
  upsert_of_missing v e has missing =
      rw has (rw missing (rw (keeps.reads_only model key_field v e) refl))

  upsert_lost :
      (v : Value) (x : Exc) (e : E)
      → value_of key_field values ≡ ok v
      → (rpc.search model key_field v e).0 ≡ err x
      → (upsert rpc model key_field values e).0 ≡ err x
  unfolding upsert ◌>>=◌ lift
  upsert_lost v x e has lost = rw has (rw lost refl)

  upsert_keyless :
      (x : Exc) (e : E)
      → value_of key_field values ≡ err x
      → (upsert rpc model key_field values e).0 ≡ err x
  unfolding upsert ◌>>=◌ lift
  upsert_keyless x e bad = rw bad refl

  -- The record is found under its key after an upsert that ends.
  upsert-found :
      (e : E) {id : ℤ}
      → (upsert rpc model key_field values e).0 ≡ ok id
      → (v : Value) × (ids : List ℤ) × (value_of key_field values ≡ ok v)
        × ((rpc.search model key_field v (upsert rpc model key_field values e).1).0 ≡ ok (id ∷ ids))
  upsert-found e {id} h = elim (Result-cases (value_of key_field values)) [
    | inr (x, bad) ↦ absurd (cc (upsert_keyless x e bad, h))
    | inl (v, has) ↦ elim (Result-cases (rpc.search model key_field v e).0) [
      | inr (x, lost) ↦ absurd (cc (upsert_lost v x e has lost, h))
      | inl (ids, got) ↦ by_found v has ids got
    ]
  ]
    where
      by_found :
          (v : Value)
          → value_of key_field values ≡ ok v
          → (ids : List ℤ) → (rpc.search model key_field v e).0 ≡ ok ids
          → (v : Value) × (ids : List ℤ) × (value_of key_field values ≡ ok v)
            × ((rpc.search model key_field v (upsert rpc model key_field values e).1).0
                ≡ ok (id ∷ ids))
      by_found v has [] got =
          let eq = upsert_of_missing v e has got in
          (v, [], has, rw eq (keeps.creates model key_field v values id e has got (rw eq at h)))
      by_found v has (i ∷ ids) got =
          let eq = upsert_of_found v i ids e has got in
          let same : i ≡ id = ok-injective (rw eq at h) in
          (
            v,
            ids,
            has,
            rw (sym same) (rw eq (keeps.written model key_field v values i ids e has got).1),
          )

  -- Once an upsert has ended with an id, another upsert of the same values ends with the same id and
  -- creates nothing: it is the write of the values to that record. The ERP finds
  -- a record by its key, accepts the write and keeps the key.
  pub upsert_again :
      (e : E) {id : ℤ}
      → (upsert rpc model key_field values e).0 ≡ ok id
      → let e' = (upsert rpc model key_field values e).1 in
        upsert rpc model key_field values e' ≡ (ok id, (rpc.write model (id ∷ []) values e').1)
  upsert_again e {id} h =
      let (v, ids, has, found) = upsert-found e h in
      upsert_of_found v id ids (upsert rpc model key_field values e).1 has found
