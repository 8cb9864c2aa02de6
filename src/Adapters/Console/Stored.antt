-- ===== src/Adapters/Console/Stored.antt =====
-- What the authorization command leaves in the token store.
use retail_order_sync_hub.Base.{
  ℕ, String, ◌==◌, string_eq, some, [], ◌∷◌, ◌≡◌, ◌≢◌, refl, ◌⊎◌, inl, inr, Bool-cases, strip,
}
use retail_order_sync_hub.Json.{str}
use retail_order_sync_hub.Config.{Settings}
use retail_order_sync_hub.Services.{Runtime, outside}
use retail_order_sync_hub.World.{World}
use retail_order_sync_hub.Exec.{Exc, Result, ok, err, Result-cases, Exec, pure, ◌>>=◌}
use retail_order_sync_hub.Adapters.Http.{Http, Seconds}
use retail_order_sync_hub.Adapters.OAuth.{
  Token, provider, load, token_request, save_token, exchange_code,
}
use retail_order_sync_hub.Adapters.OAuth.Requests.{Keeps-token_request}
use retail_order_sync_hub.Adapters.OAuth.Tokens.{load-save}
use retail_order_sync_hub.Adapters.Console.{Terminal, exchange_pasted, cmd_auth}

-- What a command that may store a token has done: it ends with 0 and there is a token, or it ends with
-- another code or an exception and the tables are as they were.
abbrev pub Stores : {E : Type 0} → World E → Result ℕ × World E → Type 0
Stores w r =
    ((r.0 ≡ ok 0) × (token : Token) × (load provider r.1.db.oauth_tokens ≡ some token))
    ⊎ ((r.0 ≢ ok 0) × (r.1.db ≡ w.db))

module _ {E : Type 0} (rt : Runtime) (http : Http E) (seconds : Seconds) (terminal : Terminal E)
    (settings : Settings) where
  -- The exchange stores the token that the endpoint gives, or it fails and leaves the tables alone.
  exchanged :
      (pasted : String) (w : World E)
      → ((token : Token) × ((exchange_code rt http seconds settings pasted w).0 ≡ ok token)
          × (load provider (exchange_code rt http seconds settings pasted w).1.db.oauth_tokens
              ≡ some token))
        ⊎ ((x : Exc) × ((exchange_code rt http seconds settings pasted w).0 ≡ err x)
            × ((exchange_code rt http seconds settings pasted w).1.db ≡ w.db))
  unfolding exchange_code save_token ◌>>=◌ pure
  exchanged pasted w =
      let payload =
        ("grant_type", str "authorization_code")
        ∷ ("code", str pasted)
        ∷ ("redirect_uri", str settings.ml_redirect_uri)
        ∷ [] in
      let request = token_request rt http seconds settings payload in
      let kept =
        (Keeps-token_request (λ (w : World E). w.db) (λ w e. refl) rt http seconds settings
            payload).same
          w in
      elim (Result-cases (request w).0) [
        | inl (token, sent) ↦ inl (
          token,
          rw sent refl,
          rw sent (load-save provider token provider (request w).1.db.oauth_tokens),
        )
        | inr (x, lost) ↦ inr (x, rw lost refl, rw lost kept)
      ]

  Stores-pasted :
      (pasted : String) (w : World E)
      → Stores w (exchange_pasted rt http seconds terminal settings pasted w)
  unfolding exchange_pasted ◌>>=◌ pure
  Stores-pasted pasted w = elim (Bool-cases (pasted == "")) [
    | inl empty ↦ rw empty (inr ((λ e. absurd (cc)), refl))
    | inr full ↦ rw full (elim (exchanged pasted w) [
      | inl (token, sent, stored) ↦ rw sent (inl (refl, token, stored))
      | inr (x, lost, kept) ↦ rw lost (inr ((λ e. absurd (cc)), kept))
    ])
  ]

  Stores-line :
      (m : Exec E String) (w : World E)
      → Stores w
          ((outside m >>= λ line. exchange_pasted rt http seconds terminal settings (strip line)) w)
  unfolding outside ◌>>=◌
  Stores-line m w = elim (Result-cases (m w.env).0) [
    | inl (line, got) ↦ rw got (Stores-pasted (strip line) (record w { env = (m w.env).1 }))
    | inr (x, lost) ↦ rw lost (inr ((λ e. absurd (cc)), refl))
  ]

  -- The authorization command ends with 0, and then the store has a token of the provider, or it ends
  -- with another code or an exception, and the tables are as they were.
  pub cmd_auth-Stores : (w : World E) → Stores w (cmd_auth rt http seconds terminal settings w)
  unfolding cmd_auth pure
  cmd_auth-Stores w = elim (Bool-cases (settings.ml_client_id == "")) [
    | inl empty ↦ rw empty (inr ((λ e. absurd (cc)), refl))
    | inr full ↦ rw full (Stores-line _ w)
  ]
