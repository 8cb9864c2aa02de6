-- ===== src/OpsConsole.antt =====
-- The functions of ops_console/app.py on the machine that it runs on, and the states that it shows.
mod Tests
use Prim.Native.Char.{Char, code}
use Prim.Native.String.{[], ◌∷◌}
use retail_order_sync_hub.Base.{
  ℕ, zero, suc, ◌+◌, ◌-◌, ℤ, pos, eq_ℤ, String, ◌==◌, string_eq, Bool, true, false, not, ◌&&◌, ◌||◌,
  any, is_some, List, [], ◌∷◌, map, length, select, cat, strip, without_prefix, eqb, leb, ltb,
  if◌then◌else◌,
}
use retail_order_sync_hub.Exec.{Exc, exc_text, Result, ok, err, Exec, pure, raise, try, ◌>>=◌}

-- What `subprocess.run` gives of a command that has ended.
pub record Completed : Type 0 where
  pub returncode : ℤ
  pub stdout : String
  pub stderr : String

-- The machine: `run` is `subprocess.run` with a time limit in seconds, `is_caught` whether an exception
-- is an `OSError` or a `SubprocessError`, `get` the status of the answer to a GET of a URL.
pub record Machine (E : Type 0) : Type 0 where
  pub run : List String → ℕ → Exec E Completed
  pub is_caught : Exc → Bool
  pub get : String → Exec E ℕ

-- The label of a service with the part of its container's name.
abbrev pub services : List (String × String)
services =
    ("Odoo (ERP)", "odoo-1")
    ∷ ("Postgres app", "app_db")
    ∷ ("Pub/Sub emulator", "pubsub-emulator")
    ∷ ("OTel collector", "otel-collector")
    ∷ ("Webhook receiver", "webhook_receiver")
    ∷ ("paris-mock", "paris_mock")
    ∷ ("Outbox worker", "outbox_worker")
    ∷ ("Subscriber", "subscriber")
    ∷ ("Reconciler", "reconciler")
    ∷ ("Grafana", "obs-grafana")
    ∷ ("Prometheus", "obs-prometheus")
    ∷ ("Tempo", "obs-tempo")
    ∷ []

abbrev pub health_urls : List (String × String)
health_urls =
    ("Webhook receiver", "http://localhost:8000/health")
    ∷ ("Grafana", "http://localhost:3000/api/health")
    ∷ ("Prometheus", "http://localhost:9090/-/ready")
    ∷ []

-- The characters at which `splitlines` cuts.
abbrev is_break : ℕ → Bool
is_break c =
    leb 10 c && leb c 13 || leb 28 c && leb c 30 || eqb c 0x85 || eqb c 0x2028 || eqb c 0x2029

abbrev prepend : Char → List String → List String
prepend c [] = (c ∷ "") ∷ []
prepend c (line ∷ lines) = (c ∷ line) ∷ lines

-- s.splitlines(), up to empty lines
unfoldable pub lines_of : String → List String
lines_of [] = []
lines_of (c ∷ s) =
    let lines = lines_of s in if is_break (code c) then "" ∷ lines else prepend c lines

-- fragment in name
unfoldable pub contains : String → String → Bool
contains fragment [] = fragment == ""
contains fragment (c ∷ s) =
    let rest = contains fragment s in is_some (without_prefix fragment (c ∷ s)) || rest

-- `is_up`
unfoldable pub is_up : String → List String → Bool
unfolding contains
is_up fragment names = any (contains fragment) names

-- "Servicios arriba": how many services are up
unfoldable pub total_up : List String → ℕ
unfolding is_up
total_up names = length (select (λ (s : String × String). is_up s.1 names) services)

abbrev text_length : String → ℕ
text_length [] = 0
text_length (c ∷ s) = text_length s + 1

abbrev text_drop : ℕ → String → String
text_drop zero s = s
text_drop (suc n) [] = ""
text_drop (suc n) (c ∷ s) = text_drop n s

-- s[-n:], of a positive n
abbrev last_chars : ℕ → String → String
last_chars n s = text_drop (text_length s - n) s

module _ {E : Type 0} (machine : Machine E) where
  -- The names, without those that are empty. The source holds them in a set.
  abbrev container_names : Completed → List String
  container_names out = select (λ s. not (s == "")) (map strip (lines_of out.stdout))

  -- except (OSError, subprocess.SubprocessError)
  abbrev unless_caught : {A : Type 0} → (Exc → A) → Exc → Exec E A
  unless_caught f x = if machine.is_caught x then pure (f x) else raise x

  unfoldable pub running_containers : Exec E (List String)
  unfolding lines_of
  running_containers =
      try
        (do
          out ← machine.run ("docker" ∷ "ps" ∷ "--format" ∷ "{{.Names}}" ∷ []) 10
          pure (container_names out))
        (unless_caught λ x. [])

  unfoldable pub run_make : String → Exec E (Bool × String)
  run_make target =
      try
        (do
          result ← machine.run ("make" ∷ target ∷ []) 600
          pure (
            eq_ℤ result.returncode (pos 0),
            last_chars 4000 (cat (result.stdout ∷ result.stderr ∷ [])),
          ))
        (unless_caught λ x. (false, exc_text x))

  unfoldable pub health : String → Exec E Bool
  health url =
      try (do status ← machine.get url; pure (leb 200 status && ltb status 400)) λ x. pure false

  -- "Servicios arriba" and the state of each service, of the containers that run.
  unfoldable pub service_states : Exec E (ℕ × List (String × Bool))
  unfolding running_containers total_up is_up
  service_states = do
    names ← running_containers
    pure (total_up names, map (λ (s : String × String). (s.0, is_up s.1 names)) services)
