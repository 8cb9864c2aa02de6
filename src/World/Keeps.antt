-- ===== src/World/Keeps.antt =====
-- Actions that leave a part of the state alone, and actions that preserve a property of it: the rules
-- for the actions of `Exec`.
use mathlib.Core.Path.{subst}
use retail_order_sync_hub.Base.{Bool, true, false, if◌then◌else◌, ◌≡◌, refl, sym, ◌∙◌, inl, inr}
use retail_order_sync_hub.Exec.{
  Exc, Result, Result-cases, Exec, pure, raise, lift, gets, try, ◌>>=◌,
}
use retail_order_sync_hub.Services.{outside}
use retail_order_sync_hub.Model.{Db}
use retail_order_sync_hub.World.{World}
use retail_order_sync_hub.World.Session.{session_scope}

-- The action leaves the part alone, whatever comes of it.
pub record Keeps {E A T : Type 0} (part : World E → T) (m : Exec (World E) A) : Type 0 where
  pub same : (w : World E) → part (m w).1 ≡ part w

-- Whatever comes of the action, the property still holds behind it.
pub record Preserves {E A : Type 0} (P : World E → Type 0) (m : Exec (World E) A) : Type 0 where
  pub holds : (w : World E) → P w → P (m w).1

module _ {E A T : Type 0} (part : World E → T) where
  pub Keeps-outside :
      (m : Exec E A)
      → ((w : World E) (e : E) → part (record w { env = e }) ≡ part w)
      → Keeps part (outside m)
  unfolding outside
  Keeps-outside m ignores = record { same = λ w. ignores w (m w.env).1 }

  pub Keeps-lift : (r : Result A) → Keeps part (lift r)
  unfolding lift
  Keeps-lift r = record { same = λ w. refl }

  pub Keeps-pure : (a : A) → Keeps part (pure a)
  unfolding pure
  Keeps-pure a = record { same = λ w. refl }

  pub Keeps-raise : (x : Exc) → Keeps {A = A} part (raise x)
  unfolding raise
  Keeps-raise x = record { same = λ w. refl }

  pub Keeps-if :
      (b : Bool) (m n : Exec (World E) A)
      → Keeps part m
      → Keeps part n
      → Keeps part (if b then m else n)
  Keeps-if true m n yes_part no_part = yes_part
  Keeps-if false m n yes_part no_part = no_part

  pub Keeps-gets : (f : World E → A) → Keeps part (gets f)
  unfolding gets
  Keeps-gets f = record { same = λ w. refl }

module _ {E A T : Type 0} (part : World E → T) where
  pub Keeps-try :
      (m : Exec (World E) A) (h : Exc → Exec (World E) A)
      → Keeps part m
      → ((x : Exc) → Keeps part (h x))
      → Keeps part (try m h)
  unfolding try
  Keeps-try m h first rest = record {
    same = λ w. elim (Result-cases (m w).0) [
      | inl (a, e) ↦ rw e (first.same w)
      | inr (x, e) ↦ rw e ((rest x).same (m w).1 ∙ first.same w)
    ];
  }

  -- A rollback restores the tables alone: a part that reads none of them is kept by the scope too.
  pub Keeps-session_scope :
      (m : Exec (World E) A)
      → ((w : World E) (d : Db) → part (record w { db = d }) ≡ part w)
      → Keeps part m
      → Keeps part (session_scope m)
  unfolding session_scope
  Keeps-session_scope m ignores k = record {
    same = λ w. elim (Result-cases (m w).0) [
      | inl (a, e) ↦ rw e (k.same w)
      | inr (x, e) ↦ rw e (ignores (m w).1 w.db ∙ k.same w)
    ];
  }

module _ {E A B T : Type 0} (part : World E → T) where
  pub Keeps-bind :
      (m : Exec (World E) A) (f : A → Exec (World E) B)
      → Keeps part m
      → ((a : A) → Keeps part (f a))
      → Keeps part (m >>= f)
  unfolding ◌>>=◌
  Keeps-bind m f first rest = record {
    same = λ w. elim (Result-cases (m w).0) [
      | inl (a, e) ↦ rw e ((rest a).same (m w).1 ∙ first.same w)
      | inr (x, e) ↦ rw e (first.same w)
    ];
  }

module _ {E A : Type 0} (P : World E → Type 0) where
  pub Preserves-pure : (a : A) → Preserves P (pure a)
  unfolding pure
  Preserves-pure a = record { holds = λ w h. h }

module _ {E A B : Type 0} (P : World E → Type 0) where
  pub Preserves-bind :
      (m : Exec (World E) A) (f : A → Exec (World E) B)
      → Preserves P m
      → ((a : A) → Preserves P (f a))
      → Preserves P (m >>= f)
  unfolding ◌>>=◌
  Preserves-bind m f first rest = record {
    holds = λ w h. elim (Result-cases (m w).0) [
      | inl (a, e) ↦ rw e ((rest a).holds (m w).1 (first.holds w h))
      | inr (x, e) ↦ rw e (first.holds w h)
    ];
  }

-- A property of a part that is left alone is preserved.
pub Keeps-Preserves :
    {E A T : Type 0} (part : World E → T) (Q : T → Type 0) (m : Exec (World E) A)
    → Keeps part m
    → Preserves (λ w. Q (part w)) m
Keeps-Preserves part Q m k = record { holds = λ w h. subst Q (sym (k.same w)) h }
