-- ===== src/Adapters/Registry.antt =====
-- The production registry of adapters (`default_adapters` of src/outbox_worker/processor.py), and what
-- its adapters leave alone.
use retail_order_sync_hub.Base.{
  String, Option, none, some, [], ◌∷◌, refl, inl, inr, Bool-cases, ◌==◌, string_eq, leb,
}
use retail_order_sync_hub.Config.{Settings}
use retail_order_sync_hub.Services.{Runtime}
use retail_order_sync_hub.Exec.{modify}
use retail_order_sync_hub.Adapters.Dto.{OrderDto}
use retail_order_sync_hub.Adapters.Http.{HttpResponse, Http, Seconds}
use retail_order_sync_hub.Adapters.Paris.{paris_adapter, paris_push_order, check_status}
use retail_order_sync_hub.Adapters.OAuth.{
  Token, provider, valid_access_token, token_to_use, refresh, refresh_current, refresh_with,
  no_refresh, save_token, is_stale,
}
use retail_order_sync_hub.Adapters.OAuth.Requests.{Keeps-token_request}
use retail_order_sync_hub.Adapters.MercadoLibre.{ml_adapter, ml_push_order, ml_result}
use retail_order_sync_hub.Outbox.Processor.{Adapters}
use retail_order_sync_hub.Outbox.Queue.{tables, AllKeepTables}
use retail_order_sync_hub.World.Keeps.{
  Keeps, Keeps-bind, Keeps-outside, Keeps-lift, Keeps-pure, Keeps-raise, Keeps-gets,
}

module _ {E : Type 0} (rt : Runtime) (http : Http E) (seconds : Seconds) (settings : Settings) where
  unfoldable pub default_adapters : Adapters E
  default_adapters =
      ("paris", paris_adapter rt http seconds settings)
      ∷ (provider, ml_adapter rt http seconds settings)
      ∷ []

  Keeps-save_token :
      (token : Token) → Keeps {E = E} tables (save_token rt http seconds settings token)
  unfolding save_token modify
  Keeps-save_token token = record { same = λ w. refl }

  Keeps-check_status :
      (text : String) (resp : HttpResponse) → Keeps {E = E} tables (check_status text resp)
  Keeps-check_status text resp = elim (Bool-cases (leb 400 resp.status_code)) [
    | inl bad ↦ rw bad (Keeps-raise tables _)
    | inr good ↦ rw good (Keeps-pure tables resp)
  ]

  Keeps-no_refresh : Keeps {E = E} tables (no_refresh rt http seconds settings)
  Keeps-no_refresh = Keeps-raise tables _

  Keeps-refresh_with :
      (token : Option String) → Keeps {E = E} tables (refresh_with rt http seconds settings token)
  Keeps-refresh_with none = Keeps-no_refresh
  Keeps-refresh_with (some token) = elim (Bool-cases (token == "")) [
    | inl empty ↦ rw empty Keeps-no_refresh
    | inr full ↦ rw full (
        Keeps-bind tables _ _ (Keeps-token_request tables (λ w e. refl) rt http seconds settings _)
          λ fresh. Keeps-bind tables _ _ (Keeps-save_token fresh) λ u. Keeps-pure tables fresh)
  ]

  Keeps-refresh_current :
      (current : Option Token)
      → Keeps {E = E} tables (refresh_current rt http seconds settings current)
  unfolding refresh_current
  Keeps-refresh_current none = Keeps-no_refresh
  Keeps-refresh_current (some current) = Keeps-refresh_with current.refresh_token

  Keeps-refresh : Keeps {E = E} tables (refresh rt http seconds settings)
  unfolding refresh
  Keeps-refresh =
      Keeps-bind tables _ _ (Keeps-gets tables _) λ current. Keeps-refresh_current current

  Keeps-token_to_use :
      (current : Option Token)
      → Keeps {E = E} tables (token_to_use rt http seconds settings current)
  unfolding token_to_use
  Keeps-token_to_use none = Keeps-raise tables _
  Keeps-token_to_use (some current) = Keeps-bind tables _ _ (Keeps-gets tables _) λ now.
      elim (Bool-cases (is_stale rt http seconds settings now current)) [
        | inl stale ↦ rw stale Keeps-refresh
        | inr valid ↦ rw valid (Keeps-pure tables current)
      ]

  Keeps-valid_access_token : Keeps {E = E} tables (valid_access_token rt http seconds settings)
  unfolding valid_access_token
  Keeps-valid_access_token = Keeps-bind tables _ _ (Keeps-gets tables _) λ current.
      Keeps-bind tables _ _ (Keeps-token_to_use current)
        λ token. Keeps-pure tables token.access_token

  Keeps-ml_push_order :
      (order : OrderDto) → Keeps {E = E} tables (ml_push_order rt http seconds settings order)
  unfolding ml_push_order
  Keeps-ml_push_order order = Keeps-bind tables _ _ Keeps-valid_access_token λ token.
      Keeps-bind tables _ _ (Keeps-outside tables _ (λ w e. refl)) λ resp.
        Keeps-bind tables _ _ (Keeps-check_status _ resp) λ resp'.
          Keeps-bind tables _ _ (Keeps-lift tables resp'.json)
            λ body. Keeps-lift tables (ml_result rt body)

  Keeps-paris_push_order :
      (order : OrderDto) → Keeps {E = E} tables (paris_push_order rt http seconds settings order)
  unfolding paris_push_order
  Keeps-paris_push_order order = Keeps-outside tables _ (λ w e. refl)

  -- The adapters of the production registry leave the shared tables and the sequences alone, whatever
  -- a push does, the refreshing of tokens included.
  pub default_adapters-AllKeepTables : AllKeepTables default_adapters
  unfolding default_adapters
  default_adapters-AllKeepTables = (Keeps-paris_push_order, (Keeps-ml_push_order, tt))
