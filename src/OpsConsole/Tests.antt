-- ===== src/OpsConsole/Tests.antt =====
-- A machine on which two containers run.
use retail_order_sync_hub.Base.{ℕ, pos, true, false, [], ◌∷◌, ◌≡◌, refl, strip, without_prefix}
use retail_order_sync_hub.Exec.{other, ok, err, pure, try, ◌>>=◌}
use retail_order_sync_hub.OpsConsole.{
  Machine, running_containers, health, total_up, is_up, contains, lines_of,
}

abbrev machine : Machine ℕ
machine = record {
  run = λ command limit n. (
    ok (record { returncode = pos 0; stdout = "hub-app_db-1\r\nhub-subscriber-1\n"; stderr = "" }),
    n,
  );
  is_caught = λ x. true;
  get = λ url n. (err (other "refused"), n);
}

two_names : running_containers machine 0 ≡ (ok ("hub-app_db-1" ∷ "hub-subscriber-1" ∷ []), 0)
unfolding running_containers lines_of strip try ◌>>=◌ pure
two_names = refl

two_up : total_up ("hub-app_db-1" ∷ "hub-subscriber-1" ∷ []) ≡ 2
unfolding total_up is_up contains without_prefix
two_up = refl

no_answer : health machine "http://localhost:8000/health" 0 ≡ (ok false, 0)
unfolding health try ◌>>=◌ pure
no_answer = refl
