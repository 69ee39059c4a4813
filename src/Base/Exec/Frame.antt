-- ===== src/Base/Exec/Frame.antt =====
-- Runs along a relation of states that holds of equal states and is transitive.
use mathlib.Core.Bool.{Bool, true, false}
use japan_agent.Base.Tests.{if◌then◌else◌}
use japan_agent.Base.Results.{Result, ok, err}
use japan_agent.Base.Exec.{Exec, pure, raise, lift, gets, ◌>>=◌}

pub record Relation (S : Type 0) : Type 1 where
  pub rel : S → S → Type 0
  pub rel_refl : (s : S) → rel s s
  pub rel_trans : {s t u : S} → rel s t → rel t u → rel s u

-- The state after the run, whether it returns or raises, is related to the state before.
pub record Along {S E A : Type 0} (R : Relation S) (m : Exec S E A) : Type 0 where
  pub at : (s : S) → R.rel s (m s).1

module _ {S E A : Type 0} (R : Relation S) where
  pub Along-pure : (a : A) → Along R (pure {E = E} a)
  Along-pure a = record { at = R.rel_refl }

  pub Along-raise : (e : E) → Along R (raise {A = A} e)
  Along-raise e = record { at = R.rel_refl }

  pub Along-lift : (r : Result E A) → Along R (lift r)
  Along-lift r = record { at = R.rel_refl }

  pub Along-gets : (f : S → A) → Along R (gets {E = E} f)
  Along-gets f = record { at = R.rel_refl }

  pub Along-if :
      (b : Bool) (m n : Exec S E A) → Along R m → Along R n → Along R (if b then m else n)
  Along-if true m n p q = p
  Along-if false m n p q = q

module _ {S E A B : Type 0} (R : Relation S) where
  Along-rest :
      (r : Result E A) (f : A → Exec S E B) (s : S)
      → ((a : A) → Along R (f a))
      → R.rel s ((lift r >>= f) s).1
  Along-rest (ok a) f s k = (k a).at s
  Along-rest (err e) f s k = R.rel_refl s

  pub Along-bind :
      (m : Exec S E A) (f : A → Exec S E B)
      → Along R m
      → ((a : A) → Along R (f a))
      → Along R (m >>= f)
  Along-bind m f p k = record {
    at = λ s. let (r, t) = m s in R.rel_trans (p.at s) (Along-rest r f t k);
  }

pub ruleset frame_rules = (Along-pure, Along-raise, Along-lift, Along-gets, Along-if, Along-bind)
