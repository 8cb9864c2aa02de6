-- ===== src/Webhook/Receiver/Delivery.antt =====
-- Runs of the receiver: what has been recorded stays recorded, and is never published again.
use mathlib.Core.Path.{subst}
use retail_order_sync_hub.Base.{ℕ, String, true, List, [], ◌∷◌, ◌≡◌, sym, ap, ◌∙◌, ◌⊎◌, inl, inr}
use retail_order_sync_hub.Json.{Value}
use retail_order_sync_hub.Config.{Settings}
use retail_order_sync_hub.Services.{Runtime, Publisher}
use retail_order_sync_hub.Signing.{signature_header}
use retail_order_sync_hub.World.{World, count}
use retail_order_sync_hub.Exec.{Exc, Result, ok, err, ok-injective, Exec}
use retail_order_sync_hub.Webhook.Store.{record_event}
use retail_order_sync_hub.Webhook.Store.Dedup.{
  IsSeen, IsUnseen, IsConsistent, new_world, new_world-IsSeen, record_event_new,
  record_event-IsConsistent, IsSeen-record_event,
}
use retail_order_sync_hub.Webhook.Receiver.{
  Request, Response, received, ml_event_id, paris_event_id, mercadolibre, paris,
}
use retail_order_sync_hub.Webhook.Receiver.Answers.{
  served, parsed, is_signed, Answer, unsigned, unreadable, malformed, unexpected, duplicate,
  accepted, refused, counted, handle_duplicate, handle_refused, publish_event, handle-Answer,
}

-- A request to one of the two endpoints.
pub data Inbound : Type 0 where
  to_mercadolibre to_paris : Request → Inbound

module _ {E : Type 0} (rt : Runtime) (publisher : Publisher E) (settings : Settings)
    (iso : ℕ → String) (source signature_name secret : String)
    (event_id_of : Value → Result String) where
  abbrev served_here : Request → Exec (World E) Response
  served_here = served rt publisher settings iso source signature_name secret event_id_of

  -- A request leaves the tables alone, or records one event.
  Answer-db :
      (request : Request) (w : World E) (r : Result Response × World E)
      → Answer rt publisher settings iso source signature_name secret event_id_of request w r
      → (r.1.db ≡ w.db)
        ⊎ ((payload : Value) × (event_id : String) × (r.1.db
              ≡ (record_event source event_id payload request.headers w).1.db))
  unfolding count
  Answer-db request w r (unsigned s a e) = inl (ap (λ (x : Result Response × World E). x.1.db) e)
  Answer-db request w r (unreadable s a e) = inl (ap (λ (x : Result Response × World E). x.1.db) e)
  Answer-db request w r (malformed x s p m e) =
      inl (ap (λ (x : Result Response × World E). x.1.db) e)
  Answer-db request w r (unexpected x s p m e) =
      inl (ap (λ (x : Result Response × World E). x.1.db) e)
  Answer-db request w r (duplicate v i s p k e) =
      inl (ap (λ (x : Result Response × World E). x.1.db) e)
  Answer-db request w r (accepted v i id s p k b e) = inr (
    v,
    i,
    ap (λ (x : Result Response × World E). x.1.db) e
        ∙ sym (ap (λ x. x.1.db) (record_event_new source i v request.headers w k)),
  )
  Answer-db request w r (refused v i id s p k b e) = inr (
    v,
    i,
    ap (λ (x : Result Response × World E). x.1.db) e
        ∙ sym (ap (λ x. x.1.db) (record_event_new source i v request.headers w k)),
  )

  IsSeen-served :
      (s i : String) (request : Request) (w : World E)
      → IsSeen s i w.db
      → IsSeen s i (served_here request w).1.db
  IsSeen-served s i request w h =
      elim (Answer-db request w _ (
        handle-Answer rt publisher settings iso source signature_name secret event_id_of request
          w)) [
            | inl same ↦ rw same h
            | inr (v, j, e) ↦ rw e (IsSeen-record_event source j s i v request.headers w h)
          ]

  IsConsistent-served :
      (request : Request) (w : World E)
      → IsConsistent w.db
      → IsConsistent (served_here request w).1.db
  IsConsistent-served request w h =
      elim (Answer-db request w _ (
        handle-Answer rt publisher settings iso source signature_name secret event_id_of request
          w)) [
            | inl same ↦ rw same h
            | inr (v, j, e) ↦ rw e (record_event-IsConsistent source j v request.headers w h)
          ]

  same_event :
      (request : Request) {v payload : Value} {i event_id : String}
      → parsed rt publisher settings iso source signature_name secret event_id_of request.body
        ≡ ok (v, i)
      → parsed rt publisher settings iso source signature_name secret event_id_of request.body
        ≡ ok (payload, event_id)
      → i ≡ event_id
  same_event request p q = ap (λ (x : Value × String). x.1) (ok-injective (sym p ∙ q))

  -- A request that parses has its event recorded, whatever the broker says.
  Answer-IsSeen :
      (request : Request) (payload : Value) (event_id : String) (w : World E)
      (r : Result Response × World E)
      → is_signed rt publisher settings iso source signature_name secret event_id_of request ≡ true
      → parsed rt publisher settings iso source signature_name secret event_id_of request.body
        ≡ ok (payload, event_id)
      → Answer rt publisher settings iso source signature_name secret event_id_of request w r
      → IsSeen source event_id r.1.db
  unfolding count
  Answer-IsSeen request payload event_id w r s p (unsigned u a e) = absurd (cc)
  Answer-IsSeen request payload event_id w r s p (unreadable u a e) = absurd (cc)
  Answer-IsSeen request payload event_id w r s p (malformed x u q m e) = absurd (cc)
  Answer-IsSeen request payload event_id w r s p (unexpected x u q m e) = absurd (cc)
  Answer-IsSeen request payload event_id w r s p (duplicate v i u q k e) =
      rw e (subst (λ j. IsSeen source j w.db) (same_event request q p) k)
  Answer-IsSeen request payload event_id w r s p (accepted v i id u q k b e) = rw e (
      subst (λ j. IsSeen source j (new_world source i v request.headers w).db)
        (same_event request q p) (new_world-IsSeen source i v request.headers w))
  Answer-IsSeen request payload event_id w r s p (refused v i x u q k b e) = rw e (
      subst (λ j. IsSeen source j (new_world source i v request.headers w).db)
        (same_event request q p) (new_world-IsSeen source i v request.headers w))

module _ {E : Type 0} (rt : Runtime) (publisher : Publisher E) (settings : Settings)
    (iso : ℕ → String) where
  -- One request, and a run of requests; an exception ends only its own request.
  unfoldable pub receive : Inbound → Exec (World E) Response
  unfolding mercadolibre paris
  receive (to_mercadolibre r) = mercadolibre rt publisher settings iso r
  receive (to_paris r) = paris rt publisher settings iso r

  unfoldable pub receive_all : List Inbound → World E → World E
  receive_all [] w = w
  receive_all (m ∷ ms) w = receive_all ms (receive m w).1

  IsSeen-receive :
      (s i : String) (m : Inbound) (w : World E) → IsSeen s i w.db → IsSeen s i (receive m w).1.db
  unfolding receive
  IsSeen-receive s i (to_mercadolibre r) w h =
      IsSeen-served rt publisher settings iso "mercadolibre" "X-Signature"
        settings.ml_webhook_secret (ml_event_id rt) s i r w h
  IsSeen-receive s i (to_paris r) w h =
      IsSeen-served rt publisher settings iso "paris" signature_header settings.paris_api_secret
        (paris_event_id rt) s i r w h

  IsSeen-receive_all :
      (s i : String) (ms : List Inbound) (w : World E)
      → IsSeen s i w.db
      → IsSeen s i (receive_all ms w).db
  unfolding receive_all
  IsSeen-receive_all s i [] w h = h
  IsSeen-receive_all s i (m ∷ ms) w h =
      IsSeen-receive_all s i ms (receive m w).1 (IsSeen-receive s i m w h)

  -- A request keeps the keys of `webhook_dedup` unique and the bronze rows one to one with them.
  pub receive-IsConsistent :
      (m : Inbound) (w : World E) → IsConsistent w.db → IsConsistent (receive m w).1.db
  unfolding receive
  receive-IsConsistent (to_mercadolibre r) w h =
      IsConsistent-served rt publisher settings iso "mercadolibre" "X-Signature"
        settings.ml_webhook_secret (ml_event_id rt) r w h
  receive-IsConsistent (to_paris r) w h =
      IsConsistent-served rt publisher settings iso "paris" signature_header
        settings.paris_api_secret (paris_event_id rt) r w h

  module _ (source signature_name secret : String) (event_id_of : Value → Result String)
      (request : Request) (payload : Value) (event_id : String)
      (signed : is_signed rt publisher settings iso source signature_name secret event_id_of request
        ≡ true)
      (parses : parsed rt publisher settings iso source signature_name secret event_id_of
          request.body
        ≡ ok (payload, event_id)) where
    -- Once a signed request with a readable event has been handled, the same request gets the answer
    -- "duplicate" after any other requests, and it publishes nothing and writes nothing.
    pub redelivery :
        (ms : List Inbound) (w : World E)
        → let w' =
            receive_all ms
              (served rt publisher settings iso source signature_name secret event_id_of request
                w).1 in
          served rt publisher settings iso source signature_name secret event_id_of request w' ≡ (
            ok (received event_id true),
            counted rt publisher settings iso source signature_name secret event_id_of "duplicate"
                w',
          )
    redelivery ms w =
        let r =
          served rt publisher settings iso source signature_name secret event_id_of request w in
        handle_duplicate rt publisher settings iso source signature_name secret event_id_of request
          payload event_id (receive_all ms r.1) signed parses
          (IsSeen-receive_all source event_id ms r.1 (
            Answer-IsSeen rt publisher settings iso source signature_name secret event_id_of request
              payload event_id w r signed parses
              (handle-Answer rt publisher settings iso source signature_name secret event_id_of
                request w)))

    -- If the broker refuses the event, the first delivery ends with its exception, and every later
    -- delivery is answered "duplicate" with the outside left as it is: the event is never published.
    pub lost_event :
        (x : Exc) (ms : List Inbound) (w : World E)
        → IsUnseen source event_id w.db
        → (publish_event rt publisher settings iso source signature_name secret event_id_of request
            payload event_id w).0
          ≡ err x
        → let first =
            served rt publisher settings iso source signature_name secret event_id_of request w in
          let w' = receive_all ms first.1 in
          let again =
            served rt publisher settings iso source signature_name secret event_id_of request w' in
          (first.0 ≡ err x) × (again.0 ≡ ok (received event_id true)) × (again.1.env ≡ w'.env)
    unfolding count
    lost_event x ms w new broken =
        let again = redelivery ms w in
        (
          ap (λ (r : Result Response × World E). r.0)
              (handle_refused rt publisher settings iso source signature_name secret event_id_of
                request payload event_id x w signed parses new broken),
          ap (λ (r : Result Response × World E). r.0) again,
          ap (λ (r : Result Response × World E). r.1.env) again,
        )
