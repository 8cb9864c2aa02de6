-- ===== src/Adapters/Http.antt =====
-- src/adapters/_http.py
pub mod Attempts
use retail_order_sync_hub.Base.{
  ℕ, suc, ◌≤◌, ◌≡◌, min, String, ◌==◌, nat_eq, string_eq, Bool, true, false, Option, none, some,
  List, cat, [], ◌∷◌, if◌then◌else◌,
}
use retail_order_sync_hub.Json.{Value}
use retail_order_sync_hub.Exec.{
  Exc, rate_limited, transport_error, Result, ok, err, Exec, pure, raise, lift, ◌>>=◌,
}

-- `json` is `resp.json()`, `retry_after` the header `Retry-After`, `error_text` the text of the exception
-- of `raise_for_status`.
pub record HttpResponse : Type 0 where
  pub status_code : ℕ
  pub retry_after : Option String
  pub json : Result Value
  pub error_text : String

pub record HttpRequest : Type 0 where
  pub method : String
  pub url : String
  pub headers : List (String × String)
  pub content : Value

-- `request` is `httpx.AsyncClient.request`. `retrying` is tenacity's `AsyncRetrying` over an action: for
-- which exceptions it tries again, after how many attempts it stops, how long it waits after the attempt
-- of a number with its exception, and with `reraise`. `jittered` is the wait of `wait_exponential_jitter`,
-- and `sleep` the pause between two attempts, in milliseconds.
pub record Http (E : Type 0) : Type 0 where
  pub request : HttpRequest → Exec E HttpResponse
  pub retrying :
      (Exc → Bool) → ℕ → (ℕ → Exc → E → ℕ × E) → Exec E HttpResponse → Exec E HttpResponse
  pub jittered : ℕ → E → ℕ × E
  pub sleep : ℕ → E → E

-- What tenacity documents of its loop: an attempt that returns ends it, and so does an exception that
-- is not to be tried again; the last attempt raises its exception again; otherwise there is a pause,
-- and one attempt less.
pub record Retries {E : Type 0} (http : Http E) : Type 0 where
  pub gives :
      (again : Exc → Bool) (n : ℕ) (wait : ℕ → Exc → E → ℕ × E) (act : Exec E HttpResponse) (e : E)
      {resp : HttpResponse}
      → (act e).0 ≡ ok resp
      → http.retrying again n wait act e ≡ act e
  pub reraises :
      (again : Exc → Bool) (n : ℕ) (wait : ℕ → Exc → E → ℕ × E) (act : Exec E HttpResponse) (e : E)
      {x : Exc}
      → (act e).0 ≡ err x
      → again x ≡ false
      → http.retrying again n wait act e ≡ act e
  pub stops :
      (again : Exc → Bool) (n : ℕ) (wait : ℕ → Exc → E → ℕ × E) (act : Exec E HttpResponse) (e : E)
      → n ≤ 1
      → http.retrying again n wait act e ≡ act e
  pub repeats :
      (again : Exc → Bool) (n : ℕ) (wait : ℕ → Exc → E → ℕ × E) (act : Exec E HttpResponse) (e : E)
      {x : Exc}
      → (act e).0 ≡ err x
      → again x ≡ true
      → http.retrying again (suc (suc n)) wait act e
        ≡ http.retrying again
            (suc n)
            (λ k. wait (suc k))
            act
            (http.sleep (wait 1 x (act e).1).0 (wait 1 x (act e).1).1)

-- `seconds_of` is `float` of a text, in milliseconds, which may raise a `ValueError`; `seconds_text` is
-- the text of such a number.
pub record Seconds : Type 0 where
  pub seconds_of : String → Result ℕ
  pub seconds_text : ℕ → String

abbrev pub is_retryable : Exc → Bool
is_retryable (rate_limited after t) = true
is_retryable (transport_error t) = true
is_retryable _ = false

module _ {E : Type 0} (http : Http E) (seconds : Seconds) where
  -- float(resp.headers.get("Retry-After", "1") or 1)
  unfoldable pub retry_after_of : Option String → Result ℕ
  retry_after_of none = seconds.seconds_of "1"
  retry_after_of (some s) = if s == "" then ok 1000 else seconds.seconds_of s

  abbrev pub limited : Result ℕ → Exec E HttpResponse
  limited (ok after) = raise (
      rate_limited after
        (cat ("rate limited (retry after " ∷ seconds.seconds_text after ∷ "s)" ∷ [])))
  limited (err e) = raise e

  abbrev pub check_limit : HttpResponse → Exec E HttpResponse
  check_limit resp =
      if resp.status_code == 429 then limited (retry_after_of resp.retry_after) else pure resp

  -- `_do`
  unfoldable pub do_request : HttpRequest → Exec E HttpResponse
  do_request request = http.request request >>= check_limit

  -- `_wait` after the attempt of that number
  unfoldable pub wait : ℕ → Exc → E → ℕ × E
  wait attempt (rate_limited after t) e = (min after 10000, e)
  wait attempt _ e = http.jittered attempt e

  -- The attempts are those of `AsyncRetrying`, which gives what the last of them does.
  unfoldable pub request_with_retry : ℕ → HttpRequest → Exec E HttpResponse
  unfolding wait do_request
  request_with_retry max_attempts request =
      http.retrying is_retryable max_attempts wait (do_request request)
