-- ===== src/Go/Moves.antt =====
-- Calls that change the host within a relation, however they end: one rule for each way to build a call.
use teleskop.Common.{◌≡◌, ◌∙◌, refl, Bool, true, false, if◌then◌else◌}
use teleskop.Go.Action.{Action, pure, raise, lift, continue, either, on_error, wrap_error, ◌>>=◌}
use teleskop.Go.Error.{Error, Outcome, ok, err, panic}
use teleskop.Go.Keeps.{Keeps}

-- A relation between what was before and what is after.
pub record IsPreorder {W : Type 0} (R : W → W → Type 0) : Type 0 where
  pub stay : (w : W) → R w w
  pub go_on : (u v w : W) → R u v → R v w → R u w

pub record Moves {W A : Type 0} (R : W → W → Type 0) (m : Action W A) : Type 0 where
  pub at : (w : W) → R w (m w).1

module _ {W : Type 0} (R : W → W → Type 0) (order : IsPreorder R) where
  pub Moves-pure : {A : Type 0} (a : A) → Moves R (pure a)
  Moves-pure a = record { at = λ w. order.stay w }

  pub Moves-raise : {A : Type 0} (e : Error) → Moves {A = A} R (raise e)
  Moves-raise e = record { at = λ w. order.stay w }

  pub Moves-lift : {A : Type 0} (o : Outcome A) → Moves R (lift o)
  Moves-lift o = record { at = λ w. order.stay w }

  pub Moves-wrap :
      {A : Type 0} (m : Action W A) (wrap : Error → Error) → Moves R m → Moves R (wrap_error m wrap)
  Moves-wrap m wrap h = record { at = λ w. h.at w }

  pub Moves-if :
      {A : Type 0} (b : Bool) (m n : Action W A)
      → Moves R m
      → Moves R n
      → Moves R (if b then m else n)
  Moves-if true m n hm hn = hm
  Moves-if false m n hm hn = hn

  continue-Moves :
      {A B : Type 0} (o : Outcome A) (u w : W) (f : A → Action W B)
      → R u w
      → ((a : A) → Moves R (f a))
      → R u (continue o f w).1
  continue-Moves (ok a) u w f h hf = order.go_on u w (f a w).1 h ((hf a).at w)
  continue-Moves (err e) u w f h hf = h
  continue-Moves panic u w f h hf = h

  pub Moves-bind :
      {A B : Type 0} (m : Action W A) (f : A → Action W B)
      → Moves R m
      → ((a : A) → Moves R (f a))
      → Moves R (m >>= f)
  Moves-bind m f hm hf = record { at = λ w. continue-Moves (m w).0 w (m w).1 f (hm.at w) hf }

  either-Moves :
      {A B : Type 0} (o : Outcome A) (u w : W) (failed : Error → Action W B) (f : A → Action W B)
      → R u w
      → ((e : Error) → Moves R (failed e))
      → ((a : A) → Moves R (f a))
      → R u (either o failed f w).1
  either-Moves (ok a) u w failed f h hm hf = order.go_on u w (f a w).1 h ((hf a).at w)
  either-Moves (err e) u w failed f h hm hf = order.go_on u w (failed e w).1 h ((hm e).at w)
  either-Moves panic u w failed f h hm hf = h

  pub Moves-on_error :
      {A B : Type 0} (m : Action W A) (failed : Error → Action W B) (f : A → Action W B)
      → Moves R m
      → ((e : Error) → Moves R (failed e))
      → ((a : A) → Moves R (f a))
      → Moves R (on_error m failed f)
  Moves-on_error m failed f h hm hf = record {
    at = λ w. either-Moves (m w).0 w (m w).1 failed f (h.at w) hm hf;
  }

  pub ruleset moving =
      (Moves-pure, Moves-raise, Moves-lift, Moves-wrap, Moves-if, Moves-bind, Moves-on_error)

-- The relation of hosts that agree on a part.
abbrev pub Same : {W V : Type 0} → (W → V) → W → W → Type 0
Same view w w' = view w' ≡ view w

pub Same-order : {W V : Type 0} (view : W → V) → IsPreorder (Same view)
Same-order view = record { stay = λ w. refl; go_on = λ u v w h h'. h' ∙ h }

pub Moves-Keeps :
    {W V A : Type 0} {view : W → V} (m : Action W A) → Moves (Same view) m → Keeps view m
Moves-Keeps m h = record { at = h.at }
