-- ===== src/Go/Keeps.antt =====
-- Calls that leave a part of the host as it is, one rule for each way to build a call, and what a call
-- in two steps has done where it returned no error.
use teleskop.Common.{◌≡◌, refl, ◌∙◌, Bool, true, false, if◌then◌else◌}
use teleskop.Go.Action.{Action, pure, raise, lift, continue, either, on_error, wrap_error, ◌>>=◌}
use teleskop.Go.Error.{Error, Outcome, ok, err, panic, or_else}

pub record Keeps {W V A : Type 0} (view : W → V) (m : Action W A) : Type 0 where
  pub at : (w : W) → view (m w).1 ≡ view w

module _ {W V A : Type 0} {view : W → V} where
  pub Keeps-pure : (a : A) → Keeps view (pure a)
  Keeps-pure a = record { at = λ w. refl }

  pub Keeps-raise : (e : Error) → Keeps {A = A} view (raise e)
  Keeps-raise e = record { at = λ w. refl }

  pub Keeps-lift : (o : Outcome A) → Keeps view (lift o)
  Keeps-lift o = record { at = λ w. refl }

  pub Keeps-wrap :
      (m : Action W A) (wrap : Error → Error) → Keeps view m → Keeps view (wrap_error m wrap)
  Keeps-wrap m wrap h = record { at = λ w. h.at w }

  pub Keeps-if :
      (b : Bool) (m n : Action W A) → Keeps view m → Keeps view n → Keeps view (if b then m else n)
  Keeps-if true m n hm hn = hm
  Keeps-if false m n hm hn = hn

module _ {W V A B : Type 0} {view : W → V} where
  continue-Keeps :
      (o : Outcome A) (w : W) (f : A → Action W B)
      → ((a : A) → Keeps view (f a))
      → view (continue o f w).1 ≡ view w
  continue-Keeps (ok a) w f hf = (hf a).at w
  continue-Keeps (err e) w f hf = refl
  continue-Keeps panic w f hf = refl

  pub Keeps-bind :
      (m : Action W A) (f : A → Action W B)
      → Keeps view m
      → ((a : A) → Keeps view (f a))
      → Keeps view (m >>= f)
  Keeps-bind m f hm hf = record { at = λ w. continue-Keeps (m w).0 (m w).1 f hf ∙ hm.at w }

  either-Keeps :
      (o : Outcome A) (w : W) (failed : Error → Action W B) (f : A → Action W B)
      → ((e : Error) → Keeps view (failed e))
      → ((a : A) → Keeps view (f a))
      → view (either o failed f w).1 ≡ view w
  either-Keeps (ok a) w failed f hm hf = (hf a).at w
  either-Keeps (err e) w failed f hm hf = (hm e).at w
  either-Keeps panic w failed f hm hf = refl

  pub Keeps-on_error :
      (m : Action W A) (failed : Error → Action W B) (f : A → Action W B)
      → Keeps view m
      → ((e : Error) → Keeps view (failed e))
      → ((a : A) → Keeps view (f a))
      → Keeps view (on_error m failed f)
  Keeps-on_error m failed f h hm hf = record {
    at = λ w. either-Keeps (m w).0 (m w).1 failed f hm hf ∙ h.at w;
  }

pub ruleset keeping =
    (Keeps-pure, Keeps-raise, Keeps-lift, Keeps-wrap, Keeps-if, Keeps-bind, Keeps-on_error)

module _ {W A B : Type 0} where
  continue-ok :
      (o : Outcome A) (w : W) (f : A → Action W B) (b : B)
      → (continue o f w).0 ≡ ok b
      → (a : A) × (o ≡ ok a) × (continue o f w ≡ f a w)
  continue-ok (ok a) w f b h = (a, refl, refl)
  continue-ok (err e) w f b h = cc
  continue-ok panic w f b h = cc

  pub bind-ok :
      (m : Action W A) (f : A → Action W B) (w : W) (b : B)
      → ((m >>= f) w).0 ≡ ok b
      → (a : A) × ((m w).0 ≡ ok a) × ((m >>= f) w ≡ f a (m w).1)
  bind-ok m f w b h = continue-ok (m w).0 (m w).1 f b h

module _ {A : Type 0} where
  pub or_else-ok : (o : Outcome A) (wrap : Error → Error) (a : A) → or_else o wrap ≡ ok a → o ≡ ok a
  or_else-ok (ok b) wrap a h = h
  or_else-ok (err e) wrap a h = cc
  or_else-ok panic wrap a h = cc
