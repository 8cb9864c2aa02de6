-- ===== src/Adapters/OAuth/Tokens.antt =====
-- The stored tokens: what is saved is loaded, and a refresh without a new refresh token is the last.
use retail_order_sync_hub.Base.{
  String, ◌==◌, string_eq, true, false, Option, none, some, List, [], ◌∷◌, if◌then◌else◌, ◌≡◌, ◌≢◌,
  refl, ap, ◌∙◌, inl, inr, Bool-cases, arith, eq_iff,
}
use retail_order_sync_hub.Config.{Settings}
use retail_order_sync_hub.Model.{OAuthToken}
use retail_order_sync_hub.Services.{Runtime}
use retail_order_sync_hub.World.{World}
use retail_order_sync_hub.Exec.{
  runtime_error, ok, err, Result-cases, ok-injective, Exec, pure, raise, ◌>>=◌, ◌>>◌,
}
use retail_order_sync_hub.Adapters.Http.{Http, Seconds}
use retail_order_sync_hub.Adapters.OAuth.{
  Token, provider, is_provider, token_row, load, save, save_token, no_refresh, refresh_with,
  refresh_current, refresh,
}

module _ (name : String) (token : Token) (m : String) where
  is_provider-token_row : is_provider m (token_row name token) ≡ (name == m)
  unfolding is_provider
  is_provider-token_row = refl

  same_provider : (row : OAuthToken) → is_provider name row ≡ true → is_provider m row ≡ (name == m)
  unfolding is_provider
  same_provider row h = rw ((eq_iff row.provider name).0 h) refl

  other_provider :
      (row : OAuthToken)
      → is_provider name row ≡ false
      → is_provider m row ≡ true
      → (name == m) ≡ false
  unfolding is_provider
  other_provider row other hit =
      ground (arith, eq_iff row.provider m, eq_iff name m, eq_iff row.provider name)

  -- The table of tokens as a map from providers: saving is insertion, and every other provider's token
  -- stays as it was.
  pub load-save :
      (rows : List OAuthToken)
      → load m (save name token rows) ≡ (if name == m then some token else load m rows)
  unfolding load save
  load-save [] = ground (arith, is_provider-token_row)
  load-save (row ∷ rows) = elim (Bool-cases (is_provider name row)) [
    | inl here ↦ rw here (ground (arith, is_provider-token_row, same_provider row here))
    | inr other ↦ rw other (elim (Bool-cases (is_provider m row)) [
      | inl hit ↦ rw hit (rw (other_provider row other hit) refl)
      | inr miss ↦ rw miss (load-save rows)
    ])
  ]

module _ {E : Type 0} (rt : Runtime) (http : Http E) (seconds : Seconds) (settings : Settings) where
  abbrev stored : World E → Option Token
  stored w = load provider w.db.oauth_tokens

  -- What follows a token request in a refresh.
  abbrev keep : Exec (World E) Token → Exec (World E) Token
  keep request = do fresh ← request; save_token rt http seconds settings fresh; pure fresh

  keep_saves :
      (request : Exec (World E) Token) (w : World E) {token : Token}
      → (keep request w).0 ≡ ok token
      → stored (keep request w).1 ≡ some token
  unfolding ◌>>=◌ save_token
  keep_saves request w {token} h = elim (Result-cases (request w).0) [
    | inl (fresh, e) ↦
        let same : fresh ≡ token = ok-injective (rw e at h) in
        rw e (load-save provider fresh provider (request w).1.db.oauth_tokens ∙ ap some same)
    | inr (x, e) ↦ absurd (cc (rw e at h))
  ]

  no_refresh_fails :
      (w : World E) {token : Token} → (no_refresh rt http seconds settings w).0 ≢ ok token
  unfolding raise
  no_refresh_fails w h = cc

  refresh_with_saves :
      (t : Option String) (w : World E) {token : Token}
      → (refresh_with rt http seconds settings t w).0 ≡ ok token
      → stored (refresh_with rt http seconds settings t w).1 ≡ some token
  refresh_with_saves none w h = absurd (no_refresh_fails w h)
  refresh_with_saves (some t) w h = elim (Bool-cases (t == "")) [
    | inl empty ↦ absurd (no_refresh_fails w (rw empty at h))
    | inr full ↦ rw full (keep_saves _ w (rw full at h))
  ]

  refresh_current_saves :
      (current : Option Token) (w : World E) {token : Token}
      → (refresh_current rt http seconds settings current w).0 ≡ ok token
      → stored (refresh_current rt http seconds settings current w).1 ≡ some token
  unfolding refresh_current
  refresh_current_saves none w h = absurd (no_refresh_fails w h)
  refresh_current_saves (some current) w h = refresh_with_saves current.refresh_token w h

  refresh_lem :
      (w : World E)
      → refresh rt http seconds settings w ≡ refresh_current rt http seconds settings (stored w) w
  unfolding refresh ◌>>=◌
  refresh_lem w = refl

  fails_without_token :
      (current : Option Token) (w : World E) (token : Token)
      → current ≡ some token
      → token.refresh_token ≡ none
      → refresh_current rt http seconds settings current w
        ≡ (err (runtime_error "no refresh token stored — run the auth flow first"), w)
  unfolding refresh_current raise
  fails_without_token current w token e lost = rw e (rw lost refl)

  -- The token that a refresh returns is the one that is stored from then on.
  pub refresh_stores :
      (w : World E) {token : Token}
      → (refresh rt http seconds settings w).0 ≡ ok token
      → load provider (refresh rt http seconds settings w).1.db.oauth_tokens ≡ some token
  refresh_stores w h =
      rw (refresh_lem w) (refresh_current_saves (stored w) w (rw (refresh_lem w) at h))

  -- After a refresh whose answer has no refresh token, although the old one was there, another
  -- refresh raises and changes nothing.
  pub refresh_forgets :
      (w : World E) {token : Token}
      → (refresh rt http seconds settings w).0 ≡ ok token
      → token.refresh_token ≡ none
      → let w' = (refresh rt http seconds settings w).1 in
        refresh rt http seconds settings w'
        ≡ (err (runtime_error "no refresh token stored — run the auth flow first"), w')
  refresh_forgets w {token} h lost =
      let w' = (refresh rt http seconds settings w).1 in
      refresh_lem w' ∙ fails_without_token (stored w') w' token (refresh_stores w h) lost
