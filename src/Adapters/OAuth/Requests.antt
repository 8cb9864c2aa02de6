-- ===== src/Adapters/OAuth/Requests.antt =====
-- What a request to the token endpoint leaves alone.
use retail_order_sync_hub.Base.{String, List, ◌&&◌, leb, ltb, ◌≡◌, inl, inr, Bool-cases}
use retail_order_sync_hub.Json.{Value}
use retail_order_sync_hub.Config.{Settings}
use retail_order_sync_hub.Services.{Runtime}
use retail_order_sync_hub.World.{World}
use retail_order_sync_hub.World.Keeps.{
  Keeps, Keeps-bind, Keeps-outside, Keeps-lift, Keeps-pure, Keeps-raise, Keeps-gets,
}
use retail_order_sync_hub.Adapters.Http.{Http, HttpResponse, Seconds}
use retail_order_sync_hub.Adapters.OAuth.{token_request, raise_for_status, token_of}

-- A part of the state in which the outside does not stand.
module _ {E T : Type 0} (part : World E → T)
    (ignores : (w : World E) (e : E) → part (record w { env = e }) ≡ part w) where
  pub Keeps-raise_for_status : (resp : HttpResponse) → Keeps part (raise_for_status resp)
  Keeps-raise_for_status resp =
      elim (Bool-cases (leb 200 resp.status_code && ltb resp.status_code 300)) [
        | inl good ↦ rw good (Keeps-pure part resp)
        | inr bad ↦ rw bad (Keeps-raise part _)
      ]

  pub Keeps-token_request :
      (rt : Runtime) (http : Http E) (seconds : Seconds) (settings : Settings)
      (payload : List (String × Value))
      → Keeps part (token_request rt http seconds settings payload)
  unfolding token_request
  Keeps-token_request rt http seconds settings payload =
      Keeps-bind part _ _ (Keeps-outside part _ ignores) λ resp.
        Keeps-bind part _ _ (Keeps-raise_for_status resp) λ resp'.
          Keeps-bind part _ _ (Keeps-lift part resp'.json) λ body.
            Keeps-bind part _ _ (Keeps-gets part _) λ now. Keeps-lift part (token_of now body)
