-- ===== src/Webhook/Store/Dedup.antt =====
-- The deduplication of events: each key is kept once, with exactly one bronze row.
use retail_order_sync_hub.Base.{
  any-snoc, ◌+◌, String, string_eq, true, false, List, [], ◌∷◌, ◌++◌, map, any, cat, decimal, ◌≡◌,
  refl, sym, ap, ◌∙◌, inl, inr, Bool-cases, arith, eq_iff, eq_refl,
}
use retail_order_sync_hub.Json.{Value}
use retail_order_sync_hub.Model.{WebhookLog, WebhookDedup, Db}
use retail_order_sync_hub.World.{World}
use retail_order_sync_hub.World.Session.{session_scope_ok}
use retail_order_sync_hub.Exec.{Result, ok}
use retail_order_sync_hub.Webhook.Store.{RecordResult, is_event, insert_event, record_event}

-- The event has been seen.
abbrev pub IsSeen : String → String → Db → Type 0
IsSeen source event_id db = any (is_event source event_id) db.webhook_dedup ≡ true

abbrev pub IsUnseen : String → String → Db → Type 0
IsUnseen source event_id db = any (is_event source event_id) db.webhook_dedup ≡ false

abbrev pub HasUniqueEvents : List WebhookDedup → Type 0
HasUniqueEvents [] = Unit
HasUniqueEvents (row ∷ rows) =
    (any (is_event row.source row.event_id) rows ≡ false) × HasUniqueEvents rows

abbrev pub log_keys : List WebhookLog → List (String × String)
log_keys = map (λ (r : WebhookLog). (r.source, r.event_id))

abbrev pub dedup_keys : List WebhookDedup → List (String × String)
dedup_keys = map (λ (r : WebhookDedup). (r.source, r.event_id))

-- What holds of the two tables between two requests.
pub record IsConsistent (db : Db) : Type 0 where
  pub unique : HasUniqueEvents db.webhook_dedup
  pub paired : log_keys db.webhook_log ≡ dedup_keys db.webhook_dedup

map-snoc {ℓ κ} :
    {A : Type ℓ} {B : Type κ} (f : A → B) (xs : List A) (x : A)
    → map f (xs ++ x ∷ []) ≡ map f xs ++ f x ∷ []
map-snoc f [] x = refl
map-snoc f (y ∷ ys) x = ap (λ t. f y ∷ t) (map-snoc f ys x)

is_event_sym :
    (r s : WebhookDedup)
    → is_event s.source s.event_id r ≡ false
    → is_event r.source r.event_id s ≡ false
unfolding is_event
is_event_sym r s h = ground (
  arith,
  eq_iff r.source s.source,
  eq_iff s.source r.source,
  eq_iff r.event_id s.event_id,
  eq_iff s.event_id r.event_id,
)

HasUniqueEvents-snoc :
    (rows : List WebhookDedup) (row : WebhookDedup)
    → HasUniqueEvents rows
    → any (is_event row.source row.event_id) rows ≡ false
    → HasUniqueEvents (rows ++ row ∷ [])
HasUniqueEvents-snoc [] row h new = (refl, tt)
HasUniqueEvents-snoc (r ∷ rows) row (first, h) new = (
  ground (arith, is_event_sym r row, any-snoc (is_event r.source r.event_id) rows row),
  HasUniqueEvents-snoc rows row h (ground arith),
)

module _ {E : Type 0} (source event_id : String) (body headers : Value) (w : World E) where
  -- The answers of the store, and the world that a new event leaves.
  abbrev pub seen_result : RecordResult
  seen_result = record {
    is_new = false;
    raw_ref = cat ("webhook_log:" ∷ source ∷ ":" ∷ event_id ∷ []);
  }

  abbrev pub new_result : RecordResult
  new_result = record {
    is_new = true;
    raw_ref = cat ("webhook_log:" ∷ decimal w.seq.webhook_log ∷ []);
  }

  abbrev pub new_dedup : WebhookDedup
  new_dedup = record { source = source; event_id = event_id; first_seen_at = w.clock }

  abbrev pub new_log : WebhookLog
  new_log = record {
    id = w.seq.webhook_log;
    event_id = event_id;
    source = source;
    received_at = w.clock;
    raw_body = body;
    headers = headers;
  }

  abbrev pub new_world : World E
  new_world = record w {
    seq = record w.seq { webhook_log = w.seq.webhook_log + 1 };
    db = record w.db {
      webhook_dedup = w.db.webhook_dedup ++ new_dedup ∷ [];
      webhook_log = w.db.webhook_log ++ new_log ∷ [];
    };
  }

  insert_event_seen :
      IsSeen source event_id w.db
      → insert_event source event_id body headers w ≡ (ok seen_result, w)
  unfolding insert_event
  insert_event_seen h = rw h

  insert_event_new :
      IsUnseen source event_id w.db
      → insert_event source event_id body headers w ≡ (ok new_result, new_world)
  unfolding insert_event
  insert_event_new h = rw h

  -- A seen event changes nothing at all.
  pub record_event_seen :
      IsSeen source event_id w.db
      → record_event source event_id body headers w ≡ (ok seen_result, w)
  unfolding record_event
  record_event_seen h =
      let e = insert_event_seen h in
      session_scope_ok (insert_event source event_id body headers) w
        (ap (λ (r : Result RecordResult × World E). r.0) e)
      ∙ e

  pub record_event_new :
      IsUnseen source event_id w.db
      → record_event source event_id body headers w ≡ (ok new_result, new_world)
  unfolding record_event
  record_event_new h =
      let e = insert_event_new h in
      session_scope_ok (insert_event source event_id body headers) w
        (ap (λ (r : Result RecordResult × World E). r.0) e)
      ∙ e

  is_event-new_dedup : is_event source event_id new_dedup ≡ true
  unfolding is_event
  is_event-new_dedup = rw (eq_refl source) (eq_refl event_id)

  pub new_world-IsSeen : IsSeen source event_id new_world.db
  new_world-IsSeen =
      ground (
        arith,
        any-snoc (is_event source event_id) w.db.webhook_dedup new_dedup,
        is_event-new_dedup,
      )

  -- The event has been seen from then on.
  pub record_event-IsSeen :
      IsSeen source event_id (record_event source event_id body headers w).1.db
  record_event-IsSeen = elim (Bool-cases (any (is_event source event_id) w.db.webhook_dedup)) [
    | inl old ↦ rw (record_event_seen old) old
    | inr new ↦ rw (record_event_new new) new_world-IsSeen
  ]

  -- Recording an event keeps the keys unique and the bronze rows one to one with them, in order.
  pub record_event-IsConsistent :
      IsConsistent w.db → IsConsistent (record_event source event_id body headers w).1.db
  record_event-IsConsistent c =
      elim (Bool-cases (any (is_event source event_id) w.db.webhook_dedup)) [
        | inl old ↦ rw (record_event_seen old) c
        | inr new ↦ rw (record_event_new new) (record {
          unique = HasUniqueEvents-snoc w.db.webhook_dedup new_dedup c.unique new;
          paired =
              map-snoc (λ (r : WebhookLog). (r.source, r.event_id)) w.db.webhook_log new_log
              ∙ ap (λ (ks : List (String × String)). ks ++ (source, event_id) ∷ []) c.paired
              ∙ sym (
                  map-snoc (λ (r : WebhookDedup). (r.source, r.event_id)) w.db.webhook_dedup
                    new_dedup);
        })
      ]

-- What has been seen stays seen, whatever is recorded.
pub IsSeen-record_event :
    {E : Type 0} (source event_id s i : String) (body headers : Value) (w : World E)
    → IsSeen s i w.db
    → IsSeen s i (record_event source event_id body headers w).1.db
IsSeen-record_event source event_id s i body headers w h =
    elim (Bool-cases (any (is_event source event_id) w.db.webhook_dedup)) [
      | inl old ↦ rw (record_event_seen source event_id body headers w old) h
      | inr new ↦ rw (record_event_new source event_id body headers w new) (
          ground (
            arith,
            any-snoc (is_event s i) w.db.webhook_dedup (new_dedup source event_id body headers w),
          ))
    ]
