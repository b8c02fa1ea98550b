-- ===== src/Go/Outcome.antt =====
-- Outcomes that are results.
use teleskop.Common.{◌≡◌, refl}
use teleskop.Go.Error.{Outcome, ok, err, panic, ◌>>=◌}

pub bind-ok :
    {A B : Type 0} (o : Outcome A) (f : A → Outcome B) (b : B)
    → (o >>= f) ≡ ok b
    → (a : A) × (o ≡ ok a) × (f a ≡ ok b)
bind-ok (ok a) f b h = (a, refl, h)
bind-ok (err e) f b h = cc
bind-ok panic f b h = cc

pub ok_inj : {A : Type 0} (a b : A) → ◌≡◌ {A = Outcome A} (ok a) (ok b) → a ≡ b
ok_inj a b h = cc
