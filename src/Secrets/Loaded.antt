-- ===== src/Secrets/Loaded.antt =====
-- Loading secrets: what is set stays, what is missing is loaded or its fetch has failed, and the count.
use retail_order_sync_hub.Base.{
  ℕ, ◌+◌, ◌≤◌, String, ◌==◌, string_eq, Bool, true, false, not, ◌||◌, any, none, some, List, [],
  ◌∷◌, length, ◌≡◌, refl, sym, ◌∙◌, inl, inr, Bool-cases, eq_iff, arith,
}
use retail_order_sync_hub.Exec.{Exc, Result, ok, err, pure, ◌>>=◌}
use retail_order_sync_hub.Secrets.{
  Environ, SecretManager, Process, getenv, setenv, is_set, secret_env_name, of_client, store_secret,
  load_secret, load_each, nothing_to_load, with_client, load_secrets_into_env,
}

getenv-setenv_ne :
    (name k v : String) (environ : Environ)
    → (k == name) ≡ false
    → getenv name (setenv k v environ) ≡ getenv name environ
unfolding getenv setenv
getenv-setenv_ne name k v [] h = rw h
getenv-setenv_ne name k v ((j, u) ∷ rest) h =
    ground (arith, getenv-setenv_ne name k v rest h, eq_iff j k, eq_iff j name, eq_iff k name)

-- A variable that is set is another than one that is not.
set_differs :
    (name k : String) (environ : Environ)
    → is_set name environ ≡ true
    → is_set k environ ≡ false
    → (k == name) ≡ false
set_differs name k environ full empty = elim (Bool-cases (k == name)) [
  | inl same ↦
      let e : k ≡ name = (eq_iff k name).0 same in
      let clash : is_set name environ ≡ false = rw (sym e) empty in absurd (cc (full, clash))
  | inr differ ↦ differ
]

-- The variable is one that a run may not change: it is set, or it is none of the requested secrets'.
abbrev pub is_settled : List String → String → Environ → Bool
is_settled secret_ids name environ =
    is_set name environ || not (any (λ s. secret_env_name s == name) secret_ids)

-- What a run has done from one process to another: it ends, with a number of secrets that is at most
-- that of the requested ones more, and every settled variable is as it was.
pub record Loads {E : Type 0} (secret_ids : List String) (loaded : ℕ) (p : Process E)
    (r : Result ℕ × Process E) : Type 0 where
  pub total : ℕ
  pub ends : r.0 ≡ ok total
  pub least : loaded ≤ total
  pub bounded : total ≤ loaded + length secret_ids
  pub kept :
      (name : String)
      → is_settled secret_ids name p.environ ≡ true
      → getenv name r.1.environ ≡ getenv name p.environ

is_settled_head :
    (s : String) (ss : List String) (name : String) (environ : Environ)
    → is_settled (s ∷ ss) name environ ≡ true
    → (is_settled (s ∷ []) name environ ≡ true) × (is_settled ss name environ ≡ true)
is_settled_head s ss name environ h = ground arith

is_set_kept :
    (name : String) (before after : Environ)
    → getenv name after ≡ getenv name before
    → is_set name after ≡ is_set name before
unfolding is_set
is_set_kept name before after e = rw e

-- The variable of a secret that is not set is no settled one.
settled_differs :
    (s name : String) (environ : Environ)
    → is_settled (s ∷ []) name environ ≡ true
    → is_set (secret_env_name s) environ ≡ false
    → (secret_env_name s == name) ≡ false
settled_differs s name environ settled empty = elim (Bool-cases (is_set name environ)) [
  | inl full ↦ set_differs name (secret_env_name s) environ full empty
  | inr clear ↦ ground arith
]

module _ {E : Type 0} (client : SecretManager E) (project_id version : String) where
  Loads-store_secret :
      (s : String) (loaded : ℕ) (r : Result String) (e : E) (p : Process E)
      → is_set (secret_env_name s) p.environ ≡ false
      → Loads (s ∷ []) loaded p (store_secret (secret_env_name s) loaded r (record p { env = e }))
  unfolding store_secret
  Loads-store_secret s loaded (ok value) e p empty = record {
    total = loaded + 1;
    ends = refl;
    least = omega arith;
    bounded = omega arith;
    kept = λ name settled.
        getenv-setenv_ne name (secret_env_name s) value p.environ
          (settled_differs s name p.environ settled empty);
  }
  Loads-store_secret s loaded (err x) e p empty = record {
    total = loaded;
    ends = refl;
    least = omega arith;
    bounded = omega arith;
    kept = λ name settled. refl;
  }

  Loads-load_secret :
      (s : String) (loaded : ℕ) (p : Process E)
      → Loads (s ∷ []) loaded p (load_secret client project_id version s loaded p)
  unfolding load_secret
  Loads-load_secret s loaded p = elim (Bool-cases (is_set (secret_env_name s) p.environ)) [
    | inl full ↦ rw full (record {
      total = loaded;
      ends = refl;
      least = omega arith;
      bounded = omega arith;
      kept = λ name settled. refl;
    })
    | inr empty ↦ rw empty (Loads-store_secret s loaded _ _ p empty)
  ]

  Loads-load_each :
      (ss : List String) (loaded : ℕ) (p : Process E)
      → Loads ss loaded p (load_each client project_id version ss loaded p)
  unfolding load_each ◌>>=◌ pure
  Loads-load_each [] loaded p = record {
    total = loaded;
    ends = refl;
    least = omega arith;
    bounded = omega arith;
    kept = λ name settled. refl;
  }
  Loads-load_each (s ∷ ss) loaded p =
      let one = Loads-load_secret s loaded p in
      let p' = (load_secret client project_id version s loaded p).1 in
      let rest = Loads-load_each ss one.total p' in
      rw one.ends (record {
        total = rest.total;
        ends = rest.ends;
        least = omega (arith, one.least, rest.least);
        bounded = omega (arith, one.bounded, rest.bounded);
        kept = λ name settled.
            let (first, others) = is_settled_head s ss name p.environ settled in
            let same = one.kept name first in
            let set' = is_set_kept name p.environ p'.environ same in
            rest.kept name (rw set' others) ∙ same;
      })

module _ {E : Type 0} where
  Loads-nothing : (ss : List String) (p : Process E) → Loads ss 0 p (ok 0, p)
  Loads-nothing ss p = record {
    total = 0;
    ends = refl;
    least = omega arith;
    bounded = omega arith;
    kept = λ name settled. refl;
  }

  no_client :
      (project_id : String) (secret_ids : List String) (version : String) (p : Process E)
      → load_secrets_into_env none project_id secret_ids version p ≡ (ok 0, p)
  unfolding load_secrets_into_env with_client pure
  no_client project_id secret_ids version p =
      elim (Bool-cases (nothing_to_load project_id secret_ids)) [
        | inl idle ↦ rw idle refl
        | inr busy ↦ rw busy refl
      ]

  Loads-client :
      (client : SecretManager E) (project_id : String) (secret_ids : List String) (version : String)
      (p : Process E)
      → (client.connect p.env).0 ≡ ok tt
      → Loads secret_ids 0 p (load_secrets_into_env (some client) project_id secret_ids version p)
  unfolding load_secrets_into_env with_client of_client ◌>>=◌ pure
  Loads-client client project_id secret_ids version p connects =
      elim (Bool-cases (nothing_to_load project_id secret_ids)) [
        | inl idle ↦ rw idle (Loads-nothing secret_ids p)
        | inr busy ↦
            let p' : Process E = record p { env = (client.connect p.env).1 } in
            let run = Loads-load_each client project_id version secret_ids 0 p' in
            rw busy (
              rw connects (record {
                total = run.total;
                ends = run.ends;
                least = run.least;
                bounded = run.bounded;
                kept = run.kept;
              }))
      ]

  -- Without a client, loading the secrets reports 0 and changes nothing. With a client that connects, it
  -- never fails, whatever the fetches do: it reports at most as many secrets as are requested, and
  -- changes no variable but those of the requested secrets that are missing or empty.
  pub load_secrets_into_env-Loads :
      (client : SecretManager E) (project_id : String) (secret_ids : List String) (version : String)
      (p : Process E)
      → (client.connect p.env).0 ≡ ok tt
      → (load_secrets_into_env none project_id secret_ids version p ≡ (ok 0, p))
        × Loads secret_ids 0 p (load_secrets_into_env (some client) project_id secret_ids version p)
  load_secrets_into_env-Loads client project_id secret_ids version p connects = (
    no_client project_id secret_ids version p,
    Loads-client client project_id secret_ids version p connects,
  )

  -- Where the client cannot connect, its exception leaves the loading: nothing is logged and passed over.
  pub load_secrets_into_env_crashes :
      (client : SecretManager E) (project_id : String) (secret_ids : List String) (version : String)
      (p : Process E) {x : Exc}
      → nothing_to_load project_id secret_ids ≡ false
      → (client.connect p.env).0 ≡ err x
      → (load_secrets_into_env (some client) project_id secret_ids version p).0 ≡ err x
  unfolding load_secrets_into_env with_client of_client ◌>>=◌
  load_secrets_into_env_crashes client project_id secret_ids version p busy lost =
      rw busy (rw lost refl)
