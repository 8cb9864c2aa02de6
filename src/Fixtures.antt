-- ===== src/Fixtures.antt =====
-- Concrete services and data for the tests: an instance of every parameter of the model.
use retail_order_sync_hub.Base.{
  ℕ, zero, suc, ◌≤◌, Bool, ◌≡◌, ◌+◌, ℤ, pos, String, Option, none, some, List, [], ◌∷◌, refl, cat,
  decimal, ltb, false, true, if◌then◌else◌, arith,
}
use retail_order_sync_hub.Json.{float, Value, int, str, arr, nil, cons, dict}
use retail_order_sync_hub.Exec.{
  Exc, json_decode_error, other, transport_error, adapter_error, Result, ok, err, Exec,
}
use retail_order_sync_hub.Model.{OutboxEntry, Status, empty_db}
use retail_order_sync_hub.World.{World}
use retail_order_sync_hub.Odoo.{SaleOrder, SaleLine, Odoo}
use retail_order_sync_hub.Adapters.Http.{HttpResponse, HttpRequest, Http, Retries, Seconds}
use retail_order_sync_hub.BqSync.{BigQuery}
use retail_order_sync_hub.ParisMock.{Outside}
use retail_order_sync_hub.Services.{
  Runtime, ReadsFields, Bytes, Attributes, Publisher, Random, IsUniform,
}
use retail_order_sync_hub.Adapters.Dto.{OrderDto, Adapter}

-- Three bodies: an empty one is no JSON, one byte is an event of Paris, and more are a list.
abbrev pub read_body : Bytes → Result Value
read_body [] = err (json_decode_error "Expecting value")
read_body (b ∷ []) = ok (dict (("event_id", str "e1") ∷ []))
read_body (b ∷ c ∷ bs) = ok (arr nil)

abbrev pub read_int : Value → Option ℤ
read_int (int n) = some n
read_int _ = none

abbrev pub read_str : Value → Option String
read_str (str s) = some s
read_str _ = none

-- The digest is the secret itself.
abbrev pub runtime : Runtime
runtime = record {
  loads = read_body;
  dumps = λ v. 0 ∷ [];
  repr = λ v. "repr";
  hmac_sha256 = λ secret body. secret;
  bound_text = λ v. err (other "operator does not exist");
  int_field = read_int;
  str_field = read_str;
  validation_text = λ v. "1 validation error";
}

pub runtime-ReadsFields : ReadsFields runtime
runtime-ReadsFields = record { int_field_int = λ n. refl; str_field_str = λ s. refl }

-- The outside is a counter. The broker accepts a message while the counter is below 2.
abbrev pub publish_some : String → Bytes → Attributes → Exec ℕ String
publish_some topic body attributes n =
    if ltb n 2 then (ok (cat ("m" ∷ decimal n ∷ [])), n + 1) else (err (other "broker down"), n)

abbrev pub publisher : Publisher ℕ
publisher = record { publish = publish_some }

abbrev pub random : Random ℕ
random = record { uniform = λ hi n. (hi, n) }

pub random-IsUniform : IsUniform random
random-IsUniform = record { within = λ hi n. omega arith }

-- An adapter that accepts every order, and one that refuses every order.
abbrev pub good_adapter : Adapter ℕ
good_adapter = record {
  name = "good";
  push_order = λ order w. (ok (record { marketplace_order_id = "M1"; status = "created" }), w);
}

abbrev pub bad_adapter : Adapter ℕ
bad_adapter = record { name = "bad"; push_order = λ order w. (err (adapter_error "boom" false), w) }

abbrev pub order : OrderDto
order = record {
  odoo_order_id = pos 7;
  buyer = "Ana";
  items = record { sku = "A"; qty = pos 2 } ∷ [];
  external_ref = "odoo-7";
}

-- A world in which the outside has counted `n`.
abbrev pub world : ℕ → World ℕ
world n = record {
  db = empty_db;
  seq = record { webhook_log = 1; orders = 1; outbox = 1 };
  clock = 1000;
  metrics = [];
  env = n;
}

-- A pending row for a target, after some attempts.
abbrev pub entry_row : ℕ → String → ℕ → OutboxEntry
entry_row id target attempts = record {
  id = id;
  aggregate_type = "order";
  aggregate_id = "7";
  payload = dict (
      ("odoo_order_id", int (pos 7))
      ∷ ("buyer", str "Ana")
      ∷ ("items", arr (cons (dict (("sku", str "A") ∷ ("qty", int (pos 2)) ∷ [])) nil))
      ∷ ("external_ref", str "odoo-7")
      ∷ []);
  target_adapter = target;
  status = Status.pending;
  attempts = attempts;
  next_attempt_at = 500;
  error_log = none;
  created_at = 100;
  updated_at = 100;
}

abbrev pub outbox_world : ℕ → List OutboxEntry → World ℕ
outbox_world n rows = record (world n) { db = record empty_db { outbox = rows } }

abbrev pub sale_order : SaleOrder
sale_order = record { id = pos 7; partner_id = some (pos 3, "Ana"); order_line = pos 1 ∷ [] }

abbrev pub sale_line : SaleLine
sale_line = record {
  id = pos 1;
  product_id = some (pos 5, "Poncho");
  product_uom_qty = float (pos 2) true "2.0";
}

-- An ERP whose outside is the note of its one order.
abbrev pub odoo : Odoo Value
odoo = record {
  read_orders = λ states note. (ok (sale_order ∷ []), note);
  read_lines = λ ids note. (ok (sale_line ∷ []), note);
  read_products = λ ids note. (ok [], note);
  read_note = λ id note. (ok (some note), note);
  write_note = λ id text note. (ok tt, str text);
}

-- A server that is down for the first two requests.
abbrev pub respond : HttpRequest → Exec ℕ HttpResponse
respond request n = if ltb n 2 then (err (transport_error "connection refused"), n + 1) else (
  ok (record {
    status_code = 200;
    retry_after = none;
    json = ok (dict (("access_token", str "T") ∷ ("expires_in", int (pos 3600)) ∷ []));
    error_text = "";
  }),
  n + 1,
)

-- What follows an attempt, with the action that tries again.
abbrev next_attempt :
    (Exc → Bool)
    → (Exc → ℕ → ℕ × ℕ)
    → (ℕ → Result HttpResponse × ℕ)
    → Result HttpResponse
    → Exec ℕ HttpResponse
next_attempt again wait rest (ok resp) n = (ok resp, n)
next_attempt again wait rest (err x) n = if again x then rest (wait x n).1 else (err x, n)

abbrev retry_loop :
    (Exc → Bool) → ℕ → (ℕ → Exc → ℕ → ℕ × ℕ) → Exec ℕ HttpResponse → Exec ℕ HttpResponse
retry_loop again zero wait act n = act n
retry_loop again (suc zero) wait act n = act n
retry_loop again (suc (suc m)) wait act n =
    let (r, n') = act n in
    next_attempt again (wait 1) (retry_loop again (suc m) (λ k. wait (suc k)) act) r n'

abbrev pub http : Http ℕ
http = record {
  request = respond;
  retrying = retry_loop;
  jittered = λ attempt n. (100, n);
  sleep = λ ms n. n;
}

pub http-Retries : Retries http
http-Retries = record { gives = gives; reraises = reraises; stops = stops; repeats = repeats }
  where
    gives :
        (again : Exc → Bool) (n : ℕ) (wait : ℕ → Exc → ℕ → ℕ × ℕ) (act : Exec ℕ HttpResponse)
        (e : ℕ) {resp : HttpResponse}
        → (act e).0 ≡ ok resp
        → retry_loop again n wait act e ≡ act e
    gives again zero wait act e h = refl
    gives again (suc zero) wait act e h = refl
    gives again (suc (suc n)) wait act e h = rw h refl

    reraises :
        (again : Exc → Bool) (n : ℕ) (wait : ℕ → Exc → ℕ → ℕ × ℕ) (act : Exec ℕ HttpResponse)
        (e : ℕ) {x : Exc}
        → (act e).0 ≡ err x
        → again x ≡ false
        → retry_loop again n wait act e ≡ act e
    reraises again zero wait act e h final = refl
    reraises again (suc zero) wait act e h final = refl
    reraises again (suc (suc n)) wait act e h final = rw h (rw final refl)

    stops :
        (again : Exc → Bool) (n : ℕ) (wait : ℕ → Exc → ℕ → ℕ × ℕ) (act : Exec ℕ HttpResponse)
        (e : ℕ)
        → n ≤ 1
        → retry_loop again n wait act e ≡ act e
    stops again zero wait act e h = refl
    stops again (suc zero) wait act e h = refl
    stops again (suc (suc n)) wait act e h = absurd (omega arith)

    repeats :
        (again : Exc → Bool) (n : ℕ) (wait : ℕ → Exc → ℕ → ℕ × ℕ) (act : Exec ℕ HttpResponse)
        (e : ℕ) {x : Exc}
        → (act e).0 ≡ err x
        → again x ≡ true
        → retry_loop again (suc (suc n)) wait act e
          ≡ retry_loop again (suc n) (λ k. wait (suc k)) act (wait 1 x (act e).1).1
    repeats again n wait act e h more = rw h (rw more refl)

abbrev pub seconds : Seconds
seconds = record { seconds_of = λ s. ok 1000; seconds_text = λ ms. "1.0" }

-- The rows that are inserted into BigQuery are accepted.
abbrev pub bq : BigQuery ℕ
bq = record {
  max_timestamp = λ ref column n. (ok none, n);
  create_table = λ ref n. (ok tt, n);
  insert_rows_json = λ ref rows n. (ok none, n + 1);
}

abbrev pub mock_services : Outside ℕ
mock_services = record { uuid = λ n. (decimal n, n + 1); post = λ url body headers n. (ok 200, n) }
