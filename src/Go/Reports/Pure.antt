-- ===== src/Go/Reports/Pure.antt =====
-- The same for outcomes that a call does not act for.
use teleskop.Common.{◌≡◌, ◌≢◌, sym, Bool, true, false, if◌then◌else◌}
use teleskop.Go.Action.{lift}
use teleskop.Go.Error.{Error, Outcome, ok, err, panic, code_of, unknown, ◌>>=◌}
use teleskop.Go.Reports.{Reports, err_inj}

module _ {W A : Type 0} where
  pub Reports-err : (e : Error) → code_of e ≢ unknown → Reports {W = W} {A = A} (lift (err e))
  Reports-err e known = record { at = λ w e' h. rw (err_inj e' e (sym h)) known }

  pub Reports-lift_if :
      (b : Bool) (o p : Outcome A)
      → Reports {W = W} (lift o)
      → Reports {W = W} (lift p)
      → Reports {W = W} (lift (if b then o else p))
  Reports-lift_if true o p ho hp = ho
  Reports-lift_if false o p ho hp = hp

module _ {W A B : Type 0} where
  pub Reports-lift_bind :
      (o : Outcome A) (f : A → Outcome B)
      → Reports {W = W} (lift o)
      → ((a : A) → Reports {W = W} (lift (f a)))
      → Reports {W = W} (lift (o >>= f))
  Reports-lift_bind (ok a) f ho hf = hf a
  Reports-lift_bind (err e) f ho hf = record { at = λ w e' h. ho.at w e' (again e' h) }
    where
      again :
          (e' : Error) → ◌≡◌ {A = Outcome B} (err e) (err e') → ◌≡◌ {A = Outcome A} (err e) (err e')
      again e' h = cc
  Reports-lift_bind panic f ho hf = record { at = λ w e h. cc }

pub ruleset reporting_pure = (Reports-err, Reports-lift_if, Reports-lift_bind)
