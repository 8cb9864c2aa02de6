-- ===== src/Scripts/InitPubsub/Again.antt =====
-- A second run of scripts/init_pubsub.py.
use mathlib.Core.Path.{subst}
use retail_order_sync_hub.Base.{
  String, Bool, true, List, [], ◌∷◌, ◌≡◌, refl, sym, ap, ◌∙◌, inl, inr, Bool-cases,
}
use retail_order_sync_hub.Config.{Settings}
use retail_order_sync_hub.Exec.{Result, ok, Result-cases, Exec, pure, raise, try, ◌>>=◌, ◌>>◌}
use retail_order_sync_hub.Scripts.InitPubsub.{
  Resource, topic, subscription, Broker, IsRegistry, ensure, pairs_of, ensure_pairs, init_pubsub,
}

module _ {E : Type 0} (broker : Broker E) (has : Resource → E → Bool)
    (registry : IsRegistry broker has) where
  ensure-stays : (r s : Resource) (e : E) → has r e ≡ true → has r (ensure broker s e).1 ≡ true
  unfolding ensure try pure raise
  ensure-stays r s e there = elim (Result-cases (broker.create s e).0) [
    | inl (u, done) ↦ rw done (registry.stays r s e there)
    | inr (x, lost) ↦ elim (Bool-cases (broker.is_already_exists x)) [
      | inl known ↦ rw lost (rw known (registry.stays r s e there))
      | inr other ↦ rw lost (rw other (registry.stays r s e there))
    ]
  ]

  ensure-has :
      (r : Resource) (e : E) → (ensure broker r e).0 ≡ ok tt → has r (ensure broker r e).1 ≡ true
  unfolding ensure try pure raise
  ensure-has r e h = elim (Result-cases (broker.create r e).0) [
    | inl (u, done) ↦ rw done (registry.accepted r e done)
    | inr (x, lost) ↦ elim (Bool-cases (broker.is_already_exists x)) [
      | inl known ↦ rw lost (rw known (registry.refused r e x lost known))
      | inr other ↦ absurd (cc (rw other at (rw lost at h)))
    ]
  ]

  ensure_again : (r : Resource) (e : E) → has r e ≡ true → ensure broker r e ≡ (ok tt, e)
  unfolding ensure try pure
  ensure_again r e there =
      let (x, known, same) = registry.is_refused r e there in rw same (rw known refl)

  -- Both resources of each pair are there.
  AllThere : String → List (String × String) → E → Type 0
  AllThere project [] e = Unit
  AllThere project ((t, s) ∷ pairs) e =
      (has (topic (broker.topic_path project t)) e ≡ true)
      × (has (subscription (broker.subscription_path project s) (broker.topic_path project t)) e
          ≡ true)
      × AllThere project pairs e

  abbrev Stays : Exec E (Unit {0}) → Type 0
  Stays m = (r : Resource) (e : E) → has r e ≡ true → has r (m e).1 ≡ true

  then-Stays : (m n : Exec E (Unit {0})) → Stays m → Stays n → Stays (m >> n)
  unfolding ◌>>=◌
  then-Stays m n first second r e there = elim (Result-cases (m e).0) [
    | inl (u, done) ↦ rw done (second r (m e).1 (first r e there))
    | inr (x, lost) ↦ rw lost (first r e there)
  ]

  -- A sequence that ends is its second part after the first.
  then_ends :
      (m n : Exec E (Unit {0})) (e : E)
      → ((m >> n) e).0 ≡ ok tt
      → ((m e).0 ≡ ok tt) × ((m >> n) e ≡ n (m e).1)
  unfolding ◌>>=◌
  then_ends m n e h = elim (Result-cases (m e).0) [
    | inl (u, done) ↦ (done, rw done refl)
    | inr (x, lost) ↦ absurd (cc (rw lost at h))
  ]

  then_skips : (m n : Exec E (Unit {0})) (e : E) → m e ≡ (ok tt, e) → (m >> n) e ≡ n e
  unfolding ◌>>=◌
  then_skips m n e h = rw h refl

  pairs-Stays :
      (project : String) (pairs : List (String × String))
      → Stays (ensure_pairs broker project pairs)
  unfolding ensure_pairs pure
  pairs-Stays project [] = λ r e there. there
  pairs-Stays project ((t, s) ∷ pairs) =
      then-Stays _ _ (λ r e. ensure-stays r _ e)
        (then-Stays _ _ (λ r e. ensure-stays r _ e) (pairs-Stays project pairs))

  pairs-AllThere :
      (project : String) (pairs : List (String × String)) (e : E)
      → (ensure_pairs broker project pairs e).0 ≡ ok tt
      → AllThere project pairs (ensure_pairs broker project pairs e).1
  unfolding ensure_pairs AllThere
  pairs-AllThere project [] e h = tt
  pairs-AllThere project ((t, s) ∷ pairs) e h =
      let path = topic (broker.topic_path project t) in
      let sub = subscription (broker.subscription_path project s) (broker.topic_path project t) in
      let rest = ensure_pairs broker project pairs in
      let (done, eq) = then_ends (ensure broker path) (ensure broker sub >> rest) e h in
      let e1 = (ensure broker path e).1 in
      let h1 : ((ensure broker sub >> rest) e1).0 ≡ ok tt =
        ap (λ (r : Result (Unit {0}) × E). r.0) (sym eq) ∙ h in
      let (done1, eq1) = then_ends (ensure broker sub) rest e1 h1 in
      let e2 = (ensure broker sub e1).1 in
      let h2 : (rest e2).0 ≡ ok tt = ap (λ (r : Result (Unit {0}) × E). r.0) (sym eq1) ∙ h1 in
      let there : (has path e2 ≡ true) × (has sub e2 ≡ true) =
        (ensure-stays path sub e1 (ensure-has path e done), ensure-has sub e1 done1) in
      subst (λ (r : Result (Unit {0}) × E). AllThere project ((t, s) ∷ pairs) r.1) (sym (eq ∙ eq1))
        (
          pairs-Stays project pairs path e2 there.0,
          pairs-Stays project pairs sub e2 there.1,
          pairs-AllThere project pairs e2 h2,
        )

  pairs_again :
      (project : String) (pairs : List (String × String)) (e : E)
      → AllThere project pairs e
      → ensure_pairs broker project pairs e ≡ (ok tt, e)
  unfolding ensure_pairs AllThere pure
  pairs_again project [] e there = refl
  pairs_again project ((t, s) ∷ pairs) e (has_topic, has_sub, others) =
      then_skips _ _ e (ensure_again _ e has_topic)
      ∙ then_skips _ _ e (ensure_again _ e has_sub)
      ∙ pairs_again project pairs e others

  -- After a run of init_pubsub that ends, another one ends too and changes nothing. The broker keeps
  -- what has been created, and refuses as existing exactly what is there.
  pub init_pubsub_again :
      (settings : Settings) (e : E)
      → (init_pubsub broker settings e).0 ≡ ok tt
      → init_pubsub broker settings (init_pubsub broker settings e).1
        ≡ (ok tt, (init_pubsub broker settings e).1)
  unfolding init_pubsub
  init_pubsub_again settings e h =
      pairs_again settings.pubsub_project_id (pairs_of settings) _
        (pairs-AllThere settings.pubsub_project_id (pairs_of settings) e h)
