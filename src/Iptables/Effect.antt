-- ===== src/Iptables/Effect.antt =====
-- The effect on the chains of the calls that succeed, one rule for each way to build a call.
use teleskop.Common.{
  ⊤, ◌≡◌, refl, Option, none, some, List, [], ◌∷◌, ◌++◌, arith, false, eq_bytes, eq_bytes_iff,
  if◌then◌else◌,
}
use teleskop.Go.Action.{Action, pure, continue, either, on_error, wrap_error, ◌>>◌}
use teleskop.Go.Error.{Error, Outcome, ok, err, panic, or_else}
use teleskop.Go.Text.{Text}
use teleskop.Iptables.Client.{
  View, Rule, Acts, put, holds_rule, created, appended, after_new_chain, after_append_unique,
}

abbrev pub bind_effect : Option View → (View → Option View) → Option View
bind_effect none f = none
bind_effect (some v) f = f v

-- One effect after another.
infixr 20 ◌then_effect◌
abbrev pub ◌then_effect◌ : (View → Option View) → (View → Option View) → View → Option View
◌then_effect◌ f g v = bind_effect (f v) g

-- A call that has succeeded has had this effect on the chains.
pub record Succeeds {W : Type 0} (view : W → View) (m : Action W ⊤) (effect : View → Option View)
    : Type 0 where
  pub at : (w : W) → (m w).0 ≡ ok tt → effect (view w) ≡ some (view (m w).1)

wrap_step :
    (r : Outcome ⊤) (wrap : Error → Error) (before after : View) (f : View → Option View)
    → Acts before f r after
    → or_else r wrap ≡ ok tt
    → f before ≡ some after
wrap_step (ok a) wrap before after f acts h = acts
wrap_step (err e) wrap before after f acts h = cc
wrap_step panic wrap before after f acts h = cc

-- A chain that was written reads as what was written, and any other as before.
pub put_self : (v : View) (name : Text) (r : Option (List Rule)) → put v name r name ≡ r
unfolding put
put_self v name r = rw ((eq_bytes_iff name name).1 refl)

pub put_ne :
    (v : View) (name k : Text) (r : Option (List Rule))
    → eq_bytes k name ≡ false
    → put v name r k ≡ v k
unfolding put
put_ne v name k r h = rw h

-- The rules of a chain after AppendUnique.
abbrev pub with_rule : Rule → List Rule → List Rule
with_rule rule rules = if holds_rule rule rules then rules else rules ++ rule ∷ []

-- What a call that had its effect found, and what it left.
created-some :
    (name : Text) (v : View) (o : Option (List Rule)) {v' : View}
    → created name v o ≡ some v'
    → (o ≡ none) × (v' ≡ put v name (some []))
created-some name v none h = ground arith
created-some name v (some rules) h = cc

pub after_new_chain-some :
    (name : Text) (v : View) {v' : View}
    → after_new_chain name v ≡ some v'
    → (v name ≡ none) × (v' ≡ put v name (some []))
unfolding after_new_chain
after_new_chain-some name v h = created-some name v (v name) h

appended-some :
    (name : Text) (v : View) (rule : Rule) (o : Option (List Rule)) {v' : View}
    → appended name v rule o ≡ some v'
    → (rules : List Rule) × (o ≡ some rules) × (v' ≡ put v name (some (with_rule rule rules)))
appended-some name v rule none h = cc
appended-some name v rule (some rules) h = (rules, refl, ground arith)

pub after_append_unique-some :
    (name : Text) (rule : Rule) (v : View) {v' : View}
    → after_append_unique name rule v ≡ some v'
    → (rules : List Rule) × (v name ≡ some rules) × (v' ≡ put v name (some (with_rule rule rules)))
unfolding after_append_unique
after_append_unique-some name rule v h = appended-some name v rule (v name) h

-- A chain of effects that ends in a view has a view between.
pub bind_effect-some :
    (o : Option View) (f : View → Option View) (v' : View)
    → bind_effect o f ≡ some v'
    → (v : View) × (o ≡ some v) × (f v ≡ some v')
bind_effect-some none f v' h = cc
bind_effect-some (some v) f v' h = (v, refl, h)

module _ {W : Type 0} {view : W → View} where
  pub Succeeds-pure : Succeeds view (pure tt) some
  Succeeds-pure = record { at = λ w h. refl }

  -- A call that only fails.
  pub Succeeds-fails :
      (m : Action W ⊤) (f : View → Option View)
      → ((w : W) → (m w).0 ≡ ok tt → ⊥)
      → Succeeds view m f
  Succeeds-fails m f never = record { at = λ w h. absurd (never w h) }

  continue_step :
      (r : Outcome ⊤) (w' : W) (n : Action W ⊤) (v : Option View) (g : View → Option View)
      → (r ≡ ok tt → v ≡ some (view w'))
      → Succeeds view n g
      → (continue r (λ _. n) w').0 ≡ ok tt
      → bind_effect v g ≡ some (view (continue r (λ _. n) w').1)
  continue_step (ok a) w' n v g hm hn h = rw (hm refl) (hn.at w' h)
  continue_step (err e) w' n v g hm hn h = cc
  continue_step panic w' n v g hm hn h = cc

  pub Succeeds-bind :
      (m n : Action W ⊤) (f g : View → Option View)
      → Succeeds view m f
      → Succeeds view n g
      → Succeeds view (m >> n) (f then_effect g)
  Succeeds-bind m n f g hm hn = record {
    at = λ w h. continue_step (m w).0 (m w).1 n (f (view w)) g (hm.at w) hn h;
  }

  pub Succeeds-wrap :
      (m : Action W ⊤) (wrap : Error → Error) (f : View → Option View)
      → ((w : W) → Acts (view w) f (m w).0 (view (m w).1))
      → Succeeds view (wrap_error m wrap) f
  Succeeds-wrap m wrap f law = record {
    at = λ w h. wrap_step (m w).0 wrap (view w) (view (m w).1) f (law w) h;
  }

  on_error_step :
      (r : Outcome ⊤) (w' : W) (failed : Error → Action W ⊤) (n : Action W ⊤) (before : View)
      (f g : View → Option View)
      → Acts before f r (view w')
      → ((e : Error) (w : W) → (failed e w).0 ≡ ok tt → ⊥)
      → Succeeds view n g
      → (either r failed (λ _. n) w').0 ≡ ok tt
      → bind_effect (f before) g ≡ some (view (either r failed (λ _. n) w').1)
  on_error_step (ok a) w' failed n before f g acts never hn h = rw acts (hn.at w' h)
  on_error_step (err e) w' failed n before f g acts never hn h = absurd (never e w' h)
  on_error_step panic w' failed n before f g acts never hn h = cc

  pub Succeeds-on_error :
      (m : Action W ⊤) (failed : Error → Action W ⊤) (n : Action W ⊤) (f g : View → Option View)
      → ((w : W) → Acts (view w) f (m w).0 (view (m w).1))
      → ((e : Error) (w : W) → (failed e w).0 ≡ ok tt → ⊥)
      → Succeeds view n g
      → Succeeds view (on_error m failed (λ _. n)) (f then_effect g)
  Succeeds-on_error m failed n f g law never hn = record {
    at = λ w h. on_error_step (m w).0 (m w).1 failed n (view w) f g (law w) never hn h;
  }
