-- ===== src/Go/Action.antt =====
-- A call that acts on the host: it takes the host's state and returns an outcome and the new state.
-- What was done before an error or a panic stays done.
use teleskop.Go.Error.{Error, Outcome, ok, err, panic, or_else}

abbrev pub Action : Type 0 → Type 0 → Type 0
Action W A = W → Outcome A × W

module _ {W A : Type 0} where
  abbrev pub pure : A → Action W A
  pure a w = (ok a, w)

  abbrev pub raise : Error → Action W A
  raise e w = (err e, w)

  -- A call that leaves the host alone.
  abbrev pub lift : Outcome A → Action W A
  lift r w = (r, w)

  -- `if err != nil { return wrap(err) }` behind a call.
  abbrev pub wrap_error : Action W A → (Error → Error) → Action W A
  wrap_error m wrap w = let (r, w') = m w in (or_else r wrap, w')

module _ {W A B : Type 0} where
  abbrev pub continue : Outcome A → (A → Action W B) → Action W B
  continue (ok a) f w = f a w
  continue (err e) f w = (err e, w)
  continue panic f w = (panic, w)

  infixl 5 ◌>>=◌ ◌>>◌
  abbrev pub ◌>>=◌ : Action W A → (A → Action W B) → Action W B
  ◌>>=◌ m f w = let (r, w') = m w in continue r f w'

  abbrev pub ◌>>◌ : Action W A → Action W B → Action W B
  m >> k = m >>= λ _. k

  -- A branch on the error of a call: `if err != nil { failed } else { found }`.
  abbrev pub either : Outcome A → (Error → Action W B) → (A → Action W B) → Action W B
  either (ok a) failed found w = found a w
  either (err e) failed found w = failed e w
  either panic failed found w = (panic, w)

  abbrev pub on_error : Action W A → (Error → Action W B) → (A → Action W B) → Action W B
  on_error m failed found w = let (r, w') = m w in either r failed found w'
