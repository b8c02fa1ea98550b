-- ===== src/Go/Triple.antt =====
-- What holds of the result and of the host where a call returned no error, given what held before.
use teleskop.Common.{⊤, ◌≡◌, refl, sym, ap, ◌∙◌}
use teleskop.Go.Action.{Action, pure, continue, either, on_error, wrap_error, ◌>>=◌}
use teleskop.Go.Error.{Error, Outcome, ok, err, panic}
use teleskop.Go.Outcome.{ok_inj}
use teleskop.Go.Keeps.{Keeps, or_else-ok}

pub record Triple {W A : Type 0} (P : W → Type 0) (m : Action W A) (Q : A → W → Type 0)
    : Type 0 where
  pub at : (w : W) (a : A) → P w → (m w).0 ≡ ok a → Q a (m w).1

module _ {W A : Type 0} where
  -- Of a call that nothing is known of.
  pub Triple-any : (P : W → Type 0) (m : Action W A) → Triple P m (λ _ _. ⊤)
  Triple-any P m = record { at = λ w a p h. tt }

  -- A call that leaves a part of the host leaves what holds of the part.
  pub Triple-keeps :
      {V : Type 0} (view : W → V) (P : V → Type 0) (m : Action W A)
      → Keeps view m
      → Triple (λ w. P (view w)) m (λ _ w. P (view w))
  Triple-keeps view P m h = record { at = λ w a p e. rw (h.at w) p }

  pub Triple-pure :
      (P : W → Type 0) (a : A) (Q : A → W → Type 0) → ((w : W) → P w → Q a w) → Triple P (pure a) Q
  Triple-pure P a Q h = record { at = λ w b p e. rw (sym (ok_inj a b e)) (h w p) }

  pub Triple-wrap :
      (P : W → Type 0) (m : Action W A) (wrap : Error → Error) (Q : A → W → Type 0)
      → Triple P m Q
      → Triple P (wrap_error m wrap) Q
  Triple-wrap P m wrap Q h = record { at = λ w a p e. h.at w a p (or_else-ok _ wrap a e) }

module _ {W A B : Type 0} where
  continue_step :
      (o : Outcome A) (w : W) (f : A → Action W B) (R : A → W → Type 0) (Q : B → W → Type 0) (b : B)
      → ((a : A) → o ≡ ok a → R a w)
      → ((a : A) → Triple (R a) (f a) Q)
      → (continue o f w).0 ≡ ok b
      → Q b (continue o f w).1
  continue_step (ok a) w f R Q b hm hf h = (hf a).at w b (hm a refl) h
  continue_step (err e) w f R Q b hm hf h = cc
  continue_step panic w f R Q b hm hf h = cc

  pub Triple-bind :
      (P : W → Type 0) (m : Action W A) (f : A → Action W B) (R : A → W → Type 0)
      (Q : B → W → Type 0)
      → Triple P m R
      → ((a : A) → Triple (R a) (f a) Q)
      → Triple P (m >>= f) Q
  Triple-bind P m f R Q hm hf = record {
    at = λ w b p h. continue_step (m w).0 (m w).1 f R Q b (λ a e. hm.at w a p e) hf h;
  }

  -- A call on a host that is known, and what follows it where it returned no error.
  pub Triple-from :
      (w : W) (m : Action W A) (f : A → Action W B) (Q : B → W → Type 0)
      → ((a : A) → (m w).0 ≡ ok a → Triple (λ v. v ≡ (m w).1) (f a) Q)
      → Triple (λ v. v ≡ w) (m >>= f) Q
  Triple-from w m f Q h =
      Triple-bind _ m f (λ a v. (v ≡ (m w).1) × ((m w).0 ≡ ok a)) Q
        (record { at = λ v a p e. (ap (λ x. (m x).1) p, ap (λ x. (m x).0) (sym p) ∙ e) })
        λ a. record { at = λ v b p e. (h a p.1).at v b p.0 e }

  either_step :
      (o : Outcome A) (w : W) (failed : Error → Action W B) (f : A → Action W B)
      (R : A → W → Type 0) (Q : B → W → Type 0) (b : B)
      → ((a : A) → o ≡ ok a → R a w)
      → ((e : Error) → Triple (λ _. ⊤) (failed e) Q)
      → ((a : A) → Triple (R a) (f a) Q)
      → (either o failed f w).0 ≡ ok b
      → Q b (either o failed f w).1
  either_step (ok a) w failed f R Q b hm he hf h = (hf a).at w b (hm a refl) h
  either_step (err e) w failed f R Q b hm he hf h = (he e).at w b tt h
  either_step panic w failed f R Q b hm he hf h = cc

  pub Triple-on_error :
      (P : W → Type 0) (m : Action W A) (failed : Error → Action W B) (f : A → Action W B)
      (R : A → W → Type 0) (Q : B → W → Type 0)
      → Triple P m R
      → ((e : Error) → Triple (λ _. ⊤) (failed e) Q)
      → ((a : A) → Triple (R a) (f a) Q)
      → Triple P (on_error m failed f) Q
  Triple-on_error P m failed f R Q hm he hf = record {
    at = λ w b p h. either_step (m w).0 (m w).1 failed f R Q b (λ a e. hm.at w a p e) he hf h;
  }
