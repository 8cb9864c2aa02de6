-- ===== src/ParisMock/Orders.antt =====
-- The marketplace keeps one order for a reference: a push that is repeated gets the first one back.
use retail_order_sync_hub.Base.{
  ℕ, String, ◌==◌, string_eq, Bool, true, false, Option, none, some, List, [], ◌∷◌, ◌++◌, find, ◌≡◌,
  refl, sym, ap, ◌∙◌, inl, inr, Bool-cases, Option-cases, eq_refl,
}
use retail_order_sync_hub.Config.{Settings}
use retail_order_sync_hub.Services.{Runtime}
use retail_order_sync_hub.Exec.{Result, ok}
use retail_order_sync_hub.Webhook.Receiver.{Response}
use retail_order_sync_hub.ParisMock.{
  ParisOrder, Mock, OrderCreateIn, Outside, to_out, existing, created, response, is_ref, is_key,
  create_or_get, create_order,
}

find-snoc {ℓ} :
    {A : Type ℓ} (p : A → Bool) (xs : List A) (x : A)
    → find p xs ≡ none
    → p x ≡ true
    → find p (xs ++ x ∷ []) ≡ some x
find-snoc p [] x h hit = rw hit refl
find-snoc p (y ∷ ys) x h hit = elim (Bool-cases (p y)) [
  | inl here ↦ absurd (cc (rw here at h))
  | inr other ↦ rw other (find-snoc p ys x (rw other at h) hit)
]

module _ (ref : String) (named : (ref == "") ≡ false) where
  existing_lem :
      (orders : List ParisOrder)
      → existing (some ref) orders ≡ find (λ (o : ParisOrder). is_ref ref o.external_ref) orders
  unfolding existing
  existing_lem orders = rw named refl

  module _ {E : Type 0} (rt : Runtime) (services : Outside E) (settings : Settings)
      (iso : ℕ → String) (payload : OrderCreateIn) (key : Option String) where
    abbrev create : Mock E → Result Response × Mock E
    create = create_order rt services settings iso key payload

    create_lem :
        (m : Mock E)
        → is_key rt services settings iso key ≡ true
        → create m
          ≡ create_or_get rt services settings iso payload
              (existing payload.external_ref m.orders)
              m
    unfolding create_order
    create_lem m right = rw right refl

    -- The order that a new reference gets, and the state behind it.
    abbrev new_order : Mock E → ParisOrder
    new_order m = created payload (services.uuid m.env).0 m.clock

    abbrev after : Mock E → Mock E
    after m = record m { orders = m.orders ++ new_order m ∷ []; env = (services.uuid m.env).1 }

    create_new :
        (m : Mock E)
        → create_or_get rt services settings iso payload none m
          ≡ (ok (response 201 (to_out iso (new_order m))), after m)
    unfolding create_or_get
    create_new m = refl

    create_old :
        (m : Mock E) (order : ParisOrder)
        → create_or_get rt services settings iso payload (some order) m
          ≡ (ok (response 201 (to_out iso order)), m)
    unfolding create_or_get
    create_old m order = refl

    existing-after :
        (m : Mock E)
        → payload.external_ref ≡ some ref
        → existing payload.external_ref m.orders ≡ none
        → existing payload.external_ref (after m).orders ≡ some (new_order m)
    existing-after m has_ref new =
        ap (λ (r : Option String). existing r (after m).orders) has_ref
        ∙ existing_lem (after m).orders
        ∙ find-snoc (λ (o : ParisOrder). is_ref ref o.external_ref) m.orders (new_order m)
            (sym (existing_lem m.orders)
              ∙ ap (λ (r : Option String). existing r m.orders) (sym has_ref)
              ∙ new)
            (ap (is_ref ref) has_ref ∙ eq_refl ref)

    -- Creating an order again: the payload has a reference that is not empty, and the key is right. The
    -- second call gives the response of the first and changes nothing, not even the outside.
    pub create_order_again :
        (m : Mock E)
        → payload.external_ref ≡ some ref
        → is_key rt services settings iso key ≡ true
        → create (create m).1 ≡ create m
    create_order_again m has_ref right =
        elim (Option-cases (existing payload.external_ref m.orders)) [
          | inl new ↦
              let first : create m ≡ (ok (response 201 (to_out iso (new_order m))), after m) =
                create_lem m right
                ∙ ap (λ o. create_or_get rt services settings iso payload o m) new
                ∙ create_new m in
              ap (λ (r : Result Response × Mock E). create r.1) first
              ∙ create_lem (after m) right
              ∙ ap (λ o. create_or_get rt services settings iso payload o (after m))
                  (existing-after m has_ref new)
              ∙ create_old (after m) (new_order m)
              ∙ sym first
          | inr (order, old) ↦
              ap (λ (r : Result Response × Mock E). create r.1)
                (create_lem m right
                  ∙ ap (λ o. create_or_get rt services settings iso payload o m) old
                  ∙ create_old m order)
        ]
