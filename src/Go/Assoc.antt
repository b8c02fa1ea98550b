-- ===== src/Go/Assoc.antt =====
-- Three calls one after the other, grouped either way.
use teleskop.Common.{⊤, ◌≡◌, refl}
use teleskop.Go.Action.{Action, continue, ◌>>=◌, ◌>>◌}
use teleskop.Go.Error.{Outcome, ok, err, panic}

step_assoc :
    {W A : Type 0} (o : Outcome A) (f : A → Action W ⊤) (k : Action W ⊤) (w : W)
    → continue o (λ a. f a >> k) w ≡ (continue o f >> k) w
step_assoc (ok a) f k w = refl
step_assoc (err e) f k w = refl
step_assoc panic f k w = refl

pub bind_assoc :
    {W A : Type 0} (m : Action W A) (f : A → Action W ⊤) (k : Action W ⊤)
    → (m >>= λ a. f a >> k) ≡ ((m >>= f) >> k)
bind_assoc m f k = λ i w. step_assoc (m w).0 f k (m w).1 i
