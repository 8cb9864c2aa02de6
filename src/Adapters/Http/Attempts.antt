-- ===== src/Adapters/Http/Attempts.antt =====
-- The attempts of a request: what ends them, and how long the pauses are.
use retail_order_sync_hub.Base.{
  ℕ, zero, suc, ◌+◌, ◌-◌, min, String, ◌==◌, nat_eq, string_eq, true, false, Option, none, some,
  ◌≡◌, refl, ap, ◌∙◌, inl, inr, Bool-cases, cat, [], ◌∷◌, if◌then◌else◌, arith,
}
use retail_order_sync_hub.Exec.{
  Exc, rate_limited, transport_error, value_error, Result, ok, err, Exec, Result-cases, raise, pure,
  ◌>>=◌,
}
use retail_order_sync_hub.Adapters.Http.{
  HttpResponse, HttpRequest, Http, Retries, Seconds, is_retryable, retry_after_of, do_request, wait,
  request_with_retry,
}

-- The wait that a response asks for.
abbrev pub asked : Seconds → Option String → Result ℕ
asked seconds none = seconds.seconds_of "1"
asked seconds (some header) = if header == "" then ok 1000 else seconds.seconds_of header

abbrev pub IsTransport : Exc → Type 0
IsTransport (transport_error t) = Unit
IsTransport _ = ⊥

abbrev pub IsLimit : Exc → Type 0
IsLimit (rate_limited after t) = Unit
IsLimit _ = ⊥

-- The libraries do not raise the program's own exception: a request raises no `RateLimited`, and a text
-- that is no number a `ValueError`.
pub record RaisesOwn {E : Type 0} (http : Http E) (seconds : Seconds) : Type 0 where
  pub no_limit :
      (request : HttpRequest) (e : E) {x : Exc} → (http.request request e).0 ≡ err x → ¬ IsLimit x
  pub no_number :
      (s : String) {x : Exc} → seconds.seconds_of s ≡ err x → (t : String) × (x ≡ value_error t)

abbrev pub limit_text : Seconds → ℕ → String
limit_text seconds after =
    cat ("rate limited (retry after " ∷ seconds.seconds_text after ∷ "s)" ∷ [])

module _ {E : Type 0} (http : Http E) (seconds : Seconds) (request : HttpRequest) where
  -- From the attempt of a number on, with so many more allowed after it, a state of the outside leads to
  -- a result.
  pub data Sends : ℕ → ℕ → E → Result HttpResponse × E → Type 0 where
    answered :
        (more attempt : ℕ) (e : E) (resp : HttpResponse)
        → (http.request request e).0 ≡ ok resp
        → (resp.status_code == 429) ≡ false
        → Sends more attempt e (ok resp, (http.request request e).1)
    errored :
        (more attempt : ℕ) (e : E) (x : Exc)
        → (http.request request e).0 ≡ err x
        → ¬ IsTransport x
        → Sends more attempt e (err x, (http.request request e).1)
    unreadable :
        (more attempt : ℕ) (e : E) (resp : HttpResponse) (x : Exc)
        → (http.request request e).0 ≡ ok resp
        → (resp.status_code == 429) ≡ true
        → asked seconds resp.retry_after ≡ err x
        → Sends more attempt e (err x, (http.request request e).1)
    limited_last :
        (attempt : ℕ) (e : E) (resp : HttpResponse) (after : ℕ)
        → (http.request request e).0 ≡ ok resp
        → (resp.status_code == 429) ≡ true
        → asked seconds resp.retry_after ≡ ok after
        → Sends 0 attempt e
            (err (rate_limited after (limit_text seconds after)), (http.request request e).1)
    down_last :
        (attempt : ℕ) (e : E) (t : String)
        → (http.request request e).0 ≡ err (transport_error t)
        → Sends 0 attempt e (err (transport_error t), (http.request request e).1)
    limited_again :
        (more attempt : ℕ) (e : E) (resp : HttpResponse) (after : ℕ) (r : Result HttpResponse × E)
        → (http.request request e).0 ≡ ok resp
        → (resp.status_code == 429) ≡ true
        → asked seconds resp.retry_after ≡ ok after
        → Sends more (suc attempt) (http.sleep (min after 10000) (http.request request e).1) r
        → Sends (suc more) attempt e r
    down_again :
        (more attempt : ℕ) (e : E) (t : String) (r : Result HttpResponse × E)
        → (http.request request e).0 ≡ err (transport_error t)
        → Sends more
            (suc attempt)
            (http.sleep
              (http.jittered attempt (http.request request e).1).0
              (http.jittered attempt (http.request request e).1).1)
            r
        → Sends (suc more) attempt e r

  abbrev act : Exec E HttpResponse
  act = do_request http seconds request

  -- One attempt: it is the last whatever is allowed, or it is told to wait, or there is no connection.
  data Tried (e : E) : Type 0 where
    final_response :
        (resp : HttpResponse)
        → (act e).0 ≡ ok resp
        → ((more attempt : ℕ) → Sends more attempt e (act e))
        → Tried e
    final_error :
        (x : Exc)
        → (act e).0 ≡ err x
        → is_retryable x ≡ false
        → ((more attempt : ℕ) → Sends more attempt e (act e))
        → Tried e
    told :
        (resp : HttpResponse) (after : ℕ)
        → (http.request request e).0 ≡ ok resp
        → (resp.status_code == 429) ≡ true
        → asked seconds resp.retry_after ≡ ok after
        → act e ≡ (err (rate_limited after (limit_text seconds after)), (http.request request e).1)
        → Tried e
    down :
        (t : String)
        → (http.request request e).0 ≡ err (transport_error t)
        → act e ≡ (err (transport_error t), (http.request request e).1)
        → Tried e

  retry_after_of-asked : (h : Option String) → retry_after_of http seconds h ≡ asked seconds h
  unfolding retry_after_of
  retry_after_of-asked none = refl
  retry_after_of-asked (some s) = refl

  Tried-error : (e : E) (x : Exc) → (http.request request e).0 ≡ err x → ¬ IsLimit x → Tried e
  unfolding do_request ◌>>=◌
  Tried-error e (transport_error t) h own = Tried.down t h (rw h refl)
  Tried-error e (rate_limited after t) h own = absurd (own tt)
  Tried-error e x h own =
      Tried.final_error x (rw h refl) refl
        λ more attempt. rw h (Sends.errored more attempt e x h λ t. t)

  asked_error :
      RaisesOwn http seconds
      → (h : Option String) {x : Exc} → asked seconds h ≡ err x
      → (t : String) × (x ≡ value_error t)
  asked_error own none e = own.no_number "1" e
  asked_error own (some s) e = elim (Bool-cases (s == "")) [
    | inl empty ↦ absurd (cc (rw empty at e))
    | inr filled ↦ own.no_number s (rw filled at e)
  ]

  Tried-act : RaisesOwn http seconds → (e : E) → Tried e
  unfolding do_request ◌>>=◌ raise pure
  Tried-act own e = elim (Result-cases (http.request request e).0) [
    | inr (x, h) ↦ Tried-error e x h (own.no_limit request e h)
    | inl (resp, h) ↦ elim (Bool-cases (resp.status_code == 429)) [
      | inr fine ↦
          Tried.final_response resp (rw h (rw fine refl))
            (λ more attempt. rw h (rw fine (Sends.answered more attempt e resp h fine)))
      | inl limit ↦ elim (Result-cases (asked seconds resp.retry_after)) [
        | inl (after, a) ↦
            Tried.told resp after h limit a
              (rw h (rw limit (rw (retry_after_of-asked resp.retry_after) (rw a refl))))
        | inr (x, a) ↦
            let asks = retry_after_of-asked resp.retry_after in
            let (t, is) = asked_error own resp.retry_after a in
            Tried.final_error x (rw h (rw limit (rw asks (rw a refl)))) (rw is refl) λ more attempt.
              rw h (rw limit (rw asks (rw a (Sends.unreadable more attempt e resp x h limit a))))
      ]
    ]
  ]

  module _ (retries : Retries http) (own : RaisesOwn http seconds) where
    -- The loop over the attempt, from the attempt of a number on.
    abbrev looped : ℕ → (ℕ → Exc → E → ℕ × E) → Exec E HttpResponse
    looped n waits = http.retrying is_retryable n waits act

    once-Sends : (attempt : ℕ) (e : E) → Tried e → Sends 0 attempt e (act e)
    once-Sends attempt e (final_response resp h all) = all 0 attempt
    once-Sends attempt e (final_error x h ends all) = all 0 attempt
    once-Sends attempt e (told resp after h limit a eq) =
        rw eq (Sends.limited_last attempt e resp after h limit a)
    once-Sends attempt e (down t h eq) = rw eq (Sends.down_last attempt e t h)

    more-Sends :
        (more attempt : ℕ) (waits : ℕ → Exc → E → ℕ × E) (e : E)
        → waits 1 ≡ wait http seconds attempt
        → ((e' : E) → Sends more (suc attempt) e' (looped (suc more) (λ k. waits (suc k)) e'))
        → Tried e
        → Sends (suc more) attempt e (looped (suc (suc more)) waits e)
    unfolding wait
    more-Sends more attempt waits e first later (final_response resp h all) =
        rw (retries.gives is_retryable (suc (suc more)) waits act e h) (all (suc more) attempt)
    more-Sends more attempt waits e first later (final_error x h ends all) =
        rw (retries.reraises is_retryable (suc (suc more)) waits act e h ends)
          (all (suc more) attempt)
    more-Sends more attempt waits e first later (told resp after h limit a eq) =
        rw (retries.repeats is_retryable more waits act e (ap (λ r. r.0) eq) refl)
          (rw first (rw eq (Sends.limited_again more attempt e resp after _ h limit a (later _))))
    more-Sends more attempt waits e first later (down t h eq) =
        rw (retries.repeats is_retryable more waits act e (ap (λ r. r.0) eq) refl)
          (rw first (rw eq (Sends.down_again more attempt e t _ h (later _))))

    looped-Sends :
        (more attempt : ℕ) (waits : ℕ → Exc → E → ℕ × E) (e : E)
        → ((j : ℕ) → waits (suc j) ≡ wait http seconds (attempt + j))
        → Sends more attempt e (looped (suc more) waits e)
    looped-Sends zero attempt waits e same =
        rw (retries.stops is_retryable 1 waits act e (omega arith))
          (once-Sends attempt e (Tried-act own e))
    looped-Sends (suc more) attempt waits e same =
        more-Sends more attempt waits e (same 0 ∙ ap (wait http seconds) (omega arith))
          (λ e'.
            looped-Sends more (suc attempt) (λ k. waits (suc k)) e'
              (λ j. same (suc j) ∙ ap (wait http seconds) (omega arith)))
          (Tried-act own e)

    -- A request is attempted at most `max_attempts` times, and once if that is 0. A response with another
    -- status than 429 is its result, and so is an exception that is not of the transport, and that of a
    -- header that is no number. After a 429 it is attempted again behind the wait that the header
    -- asks for, at most 10 seconds, and after an exception of the transport behind the jittered wait;
    -- the last attempt raises `RateLimited` or the exception of the transport. tenacity's loop does what
    -- it documents, and the libraries do not raise the program's own exception.
    pub request_with_retry-Sends :
        (max_attempts : ℕ) (e : E)
        → Sends (max_attempts - 1) 1 e (request_with_retry http seconds max_attempts request e)
    unfolding request_with_retry
    request_with_retry-Sends zero e =
        rw (retries.stops is_retryable 0 (wait http seconds) act e (omega arith))
          (once-Sends 1 e (Tried-act own e))
    request_with_retry-Sends (suc n) e =
        let less : suc n - 1 ≡ n = omega arith in
        rw less (looped-Sends n 1 (wait http seconds) e (λ j. ap (wait http seconds) (omega arith)))
