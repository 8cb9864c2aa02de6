-- ===== src/Secrets/Tests.antt =====
-- Concrete environments and secrets.
use retail_order_sync_hub.Base.{ℕ, zero, suc, String, none, some, [], ◌∷◌, ◌≡◌, refl}
use retail_order_sync_hub.Exec.{Exec, ok, err, other, pure, ◌>>=◌}
use retail_order_sync_hub.Secrets.{
  SecretManager, Process, getenv, setenv, of_client, store_secret, is_set, secret_env_name, lower,
  load_each, load_secrets_into_env, maybe_load_secrets,
}
use retail_order_sync_hub.Secrets.Loaded.{Loads, load_secrets_into_env-Loads}

-- The first fetch fails, and the later ones succeed.
abbrev access_later : String → Exec ℕ String
access_later name zero = (err (other "not found"), 1)
access_later name (suc n) = (ok "s3cret", suc (suc n))

abbrev manager : SecretManager ℕ
manager = record { connect = λ n. (ok tt, n); access = access_later }

abbrev process : Process ℕ
process = record {
  environ = ("PARIS_API_SECRET", "local") ∷ ("ML_WEBHOOK_SECRET", "") ∷ [];
  env = 0;
}

env_name : secret_env_name "paris-api-secret" ≡ "PARIS_API_SECRET"
unfolding secret_env_name
env_name = refl

-- The first id is set, the second fails and the third is loaded.
loaded_third :
    (load_secrets_into_env
      (some manager)
      "p"
      ("PARIS_API_SECRET" ∷ "ML_WEBHOOK_SECRET" ∷ "ml-client" ∷ [])
      "latest"
      process)
    ≡ (
      ok 1,
      record {
        environ =
            ("PARIS_API_SECRET", "local")
            ∷ ("ML_WEBHOOK_SECRET", "")
            ∷ ("ML_CLIENT", "s3cret")
            ∷ [];
        env = 2;
      },
    )
unfolding load_secrets_into_env load_each of_client store_secret is_set getenv setenv
    secret_env_name ◌>>=◌ pure
loaded_third = refl

not_enabled : (maybe_load_secrets (some manager) process) ≡ (ok 0, process)
unfolding maybe_load_secrets lower getenv pure
not_enabled = refl

load_secrets_into_env-Loads_example :
    (load_secrets_into_env none "p" ("PARIS_API_SECRET" ∷ "ml-client" ∷ []) "latest" process
      ≡ (ok 0, process))
    × Loads ("PARIS_API_SECRET" ∷ "ml-client" ∷ []) 0 process (
        load_secrets_into_env
          (some manager)
          "p"
          ("PARIS_API_SECRET" ∷ "ml-client" ∷ [])
          "latest"
          process)
load_secrets_into_env-Loads_example =
    load_secrets_into_env-Loads manager "p" ("PARIS_API_SECRET" ∷ "ml-client" ∷ []) "latest" process
      refl
