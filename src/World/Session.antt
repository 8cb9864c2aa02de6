-- ===== src/World/Session.antt =====
-- `session_scope` of src/common/db.py: commit on return, roll back and raise again on an exception.
use retail_order_sync_hub.Base.{◌≡◌, arith}
use retail_order_sync_hub.Exec.{Exc, Result, ok, err, Exec}
use retail_order_sync_hub.World.{World}

module _ {E A : Type 0} where
  close : Result A → World E → World E → Result A × World E
  close (ok a) before after = (ok a, after)
  close (err e) before after = (err e, record after { db = before.db })

  -- The statements of `body` are executed as they are reached. A rollback restores the tables, and
  -- neither the sequences nor what the body did to the outside.
  unfoldable pub session_scope : Exec (World E) A → Exec (World E) A
  unfolding close
  session_scope body w = let (r, w') = body w in close r w w'

  -- A raise inside the scope leaves the tables as they were.
  pub db-session_scope_err :
      (body : Exec (World E) A) (w : World E) {e : Exc}
      → (session_scope body w).0 ≡ err e
      → (session_scope body w).1.db ≡ w.db
  unfolding session_scope
  db-session_scope_err body w h = ground arith

  -- A scope whose body returns is the body.
  pub session_scope_ok :
      (body : Exec (World E) A) (w : World E) {a : A}
      → (body w).0 ≡ ok a
      → session_scope body w ≡ body w
  unfolding session_scope
  session_scope_ok body w h = rw h
