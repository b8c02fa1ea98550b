-- ===== src/Go/Reports.antt =====
-- Calls whose errors all come from status.Errorf, one rule for each way to build a call.
pub mod Pure
use teleskop.Common.{String, arith, sym, ◌≡◌, ◌≢◌, Bool, true, false, if◌then◌else◌}
use teleskop.Go.Action.{Action, pure, lift, continue, on_error, either, wrap_error, ◌>>=◌}
use teleskop.Go.Error.{
  Code, Error, Outcome, ok, err, panic, or_else, code_of, status, status_text, unknown, internal,
  invalid_argument, not_found,
}

pub record Reports {W A : Type 0} (m : Action W A) : Type 0 where
  pub at : (w : W) (e : Error) → (m w).0 ≡ err e → code_of e ≢ unknown

module _ {A : Type 0} where
  pub err_inj : (e e' : Error) → ◌≡◌ {A = Outcome A} (err e) (err e') → e ≡ e'
  err_inj e e' h = cc

  or_else_step :
      (o : Outcome A) (c : Code) (t : String) (e : Error)
      → c ≢ unknown
      → or_else o (status c t) ≡ err e
      → code_of e ≢ unknown
  unfolding code_of
  or_else_step (ok a) c t e known h = cc
  or_else_step (err e') c t e known h = rw (err_inj e (status c t e') (sym h)) known
  or_else_step panic c t e known h = cc

  text_step :
      (o : Outcome A) (c : Code) (t : String) (e : Error)
      → c ≢ unknown
      → or_else o (λ _. status_text c t) ≡ err e
      → code_of e ≢ unknown
  unfolding code_of
  text_step (ok a) c t e known h = cc
  text_step (err e') c t e known h = rw (err_inj e (status_text c t) (sym h)) known
  text_step panic c t e known h = cc

module _ {W A : Type 0} where
  pub Reports-pure : (a : A) → Reports {W = W} (pure a)
  Reports-pure a = record { at = λ w e h. cc }

  pub Reports-status :
      (m : Action W A) (c : Code) (t : String) → c ≢ unknown → Reports (wrap_error m (status c t))
  Reports-status m c t known = record { at = λ w e h. or_else_step (m w).0 c t e known h }

  pub Reports-lift :
      (o : Outcome A) (c : Code) (t : String)
      → c ≢ unknown
      → Reports {W = W} (lift (or_else o (status c t)))
  Reports-lift o c t known = record { at = λ w e h. or_else_step o c t e known h }

  -- The errors of other functions are replaced.
  pub Reports-text :
      (o : Outcome A) (c : Code) (t : String)
      → c ≢ unknown
      → Reports {W = W} (lift (or_else o (λ _. status_text c t)))
  Reports-text o c t known = record { at = λ w e h. text_step o c t e known h }

  pub Reports-if :
      (b : Bool) (m n : Action W A) → Reports m → Reports n → Reports (if b then m else n)
  Reports-if true m n hm hn = hm
  Reports-if false m n hm hn = hn

module _ {W A B : Type 0} where
  continue_step :
      (o : Outcome A) (w : W) (f : A → Action W B) (e : Error)
      → ((e' : Error) → o ≡ err e' → code_of e' ≢ unknown)
      → ((a : A) → Reports (f a))
      → (continue o f w).0 ≡ err e
      → code_of e ≢ unknown
  continue_step (ok a) w f e hm hf h = (hf a).at w e h
  continue_step (err e') w f e hm hf h = hm e (ground arith)
  continue_step panic w f e hm hf h = cc

  pub Reports-bind :
      (m : Action W A) (f : A → Action W B)
      → Reports m
      → ((a : A) → Reports (f a))
      → Reports (m >>= f)
  Reports-bind m f hm hf = record { at = λ w e h. continue_step (m w).0 (m w).1 f e (hm.at w) hf h }

  either_step :
      (o : Outcome A) (w : W) (failed : Error → Action W B) (f : A → Action W B) (e : Error)
      → ((e' : Error) → Reports (failed e'))
      → ((a : A) → Reports (f a))
      → (either o failed f w).0 ≡ err e
      → code_of e ≢ unknown
  either_step (ok a) w failed f e hm hf h = (hf a).at w e h
  either_step (err e') w failed f e hm hf h = (hm e').at w e h
  either_step panic w failed f e hm hf h = cc

  pub Reports-on_error :
      (m : Action W A) (failed : Error → Action W B) (f : A → Action W B)
      → ((e : Error) → Reports (failed e))
      → ((a : A) → Reports (f a))
      → Reports (on_error m failed f)
  Reports-on_error m failed f hm hf = record {
    at = λ w e h. either_step (m w).0 (m w).1 failed f e hm hf h;
  }

pub internal-ne : internal ≢ unknown
internal-ne e = cc

pub invalid_argument-ne : invalid_argument ≢ unknown
invalid_argument-ne e = cc

pub not_found-ne : not_found ≢ unknown
not_found-ne e = cc

pub ruleset reporting = (
  Reports-pure, Reports-status, Reports-lift, Reports-text, Reports-if, Reports-on_error,
  Reports-bind, internal-ne, invalid_argument-ne, not_found-ne,
)
