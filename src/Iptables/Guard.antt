-- ===== src/Iptables/Guard.antt =====
-- iptables.go: what the agent may do to the chains of the filter table.
pub mod Names
pub mod Calls
pub mod Moves
pub mod Reach
mod Tests
use mathlib.Core.Option.{some-injective}
use teleskop.Common.{
  ◌∷◌, ◌≡◌, ◌≢◌, ◌⊎◌, refl, sym, ap, ◌∙◌, Bool, true, false, Option, some, none, List, [], ◌++◌,
  eq_bytes, eq_bytes_iff, append-nil, append_assoc, arith, Bool-cases, inl, inr,
}
use teleskop.Go.Text.{Text, codes, has_prefix}
use teleskop.Iptables.Client.{View, Rule, put, holds_rule}
use teleskop.Iptables.Chain.{chain_input, chain_forward}
use teleskop.Iptables.Effect.{put_ne, with_rule}

abbrev pub chain_prefix : Text
chain_prefix = codes "callisto-"

-- A chain that is neither the agent's, by its name, nor one of the two that jump to the agent's.
pub record IsForeign (k : Text) : Type 0 where
  pub not_own : has_prefix k chain_prefix ≡ false
  pub not_input : eq_bytes k chain_input ≡ false
  pub not_forward : eq_bytes k chain_forward ≡ false

-- Foreign chains are as before, and the two built-in chains have at most new rules behind the old.
pub record IsGuarded (v v' : View) : Type 0 where
  pub foreign : (k : Text) → IsForeign k → v' k ≡ v k
  pub input :
      (rules : List Rule)
      → v chain_input ≡ some rules
      → (more : List Rule) × (v' chain_input ≡ some (rules ++ more))
  pub forward :
      (rules : List Rule)
      → v chain_forward ≡ some rules
      → (more : List Rule) × (v' chain_forward ≡ some (rules ++ more))

same_grows :
    (k : Text) (v v' : View) (rules : List Rule)
    → v' k ≡ v k
    → v k ≡ some rules
    → (more : List Rule) × (v' k ≡ some (rules ++ more))
same_grows k v v' rules same h = ([], same ∙ (h ∙ sym (ap some (append-nil rules))))

pub IsGuarded-same : (v v' : View) → v' ≡ v → IsGuarded v v'
IsGuarded-same v v' e = record {
  foreign = λ k h. ap (λ (x : View). x k) e;
  input = λ rules h. same_grows chain_input v v' rules (ap (λ (x : View). x chain_input) e) h;
  forward = λ rules h. same_grows chain_forward v v' rules (ap (λ (x : View). x chain_forward) e) h;
}

both_grow :
    (rules more : List Rule) (more' : List Rule) (o : Option (List Rule))
    → o ≡ some ((rules ++ more) ++ more')
    → (all : List Rule) × (o ≡ some (rules ++ all))
both_grow rules more more' o h = (more ++ more', h ∙ ap some (append_assoc rules more more'))

pub IsGuarded-trans : (u v w : View) → IsGuarded u v → IsGuarded v w → IsGuarded u w
IsGuarded-trans u v w h h' = record {
  foreign = λ k f. h'.foreign k f ∙ h.foreign k f;
  input = λ rules e.
      let (more, e1) = h.input rules e in
      let (more', e2) = h'.input (rules ++ more) e1 in
      both_grow rules more more' (w chain_input) e2;
  forward = λ rules e.
      let (more, e1) = h.forward rules e in
      let (more', e2) = h'.forward (rules ++ more) e1 in
      both_grow rules more more' (w chain_forward) e2;
}

-- A name of the agent.
abbrev pub IsOwn : Text → Type 0
IsOwn k = has_prefix k chain_prefix ≡ true

pub differs :
    (k name : Text) → has_prefix k chain_prefix ≡ false → IsOwn name → eq_bytes k name ≡ false
differs k name h own = elim (Bool-cases (eq_bytes k name)) [
  | inl same ↦
      absurd (conflict (ap (λ t. has_prefix t chain_prefix) ((eq_bytes_iff k name).0 same)))
  | inr other ↦ other
]
  where
    conflict : has_prefix k chain_prefix ≡ has_prefix name chain_prefix → ⊥
    conflict e = cc

-- Writing a chain of the agent.
pub IsGuarded-put :
    (v : View) (name : Text) (r : Option (List Rule)) → IsOwn name → IsGuarded v (put v name r)
unfolding has_prefix codes
IsGuarded-put v name r own = record {
  foreign = λ k f. put_ne v name k r (differs k name f.not_own own);
  input = λ rules h.
      same_grows chain_input v (put v name r) rules
        (put_ne v name chain_input r (differs chain_input name refl own)) h;
  forward = λ rules h.
      same_grows chain_forward v (put v name r) rules
        (put_ne v name chain_forward r (differs chain_forward name refl own)) h;
}

with_rule_grows :
    (rule : Rule) (rules : List Rule) → (more : List Rule) × (with_rule rule rules ≡ rules ++ more)
with_rule_grows rule rules = elim (Bool-cases (holds_rule rule rules)) [
  | inl there ↦ ([], rw there (sym (append-nil rules)))
  | inr new ↦ (rule ∷ [], rw new refl)
]

module _ (v : View) (name : Text) (rule : Rule) (old : List Rule) (found : v name ≡ some old) where
  appended_to : View
  appended_to = put v name (some (with_rule rule old))

  put_grows :
      (k : Text) (rules : List Rule)
      → v k ≡ some rules
      → (more : List Rule) × (appended_to k ≡ some (rules ++ more))
  unfolding appended_to put
  put_grows k rules h = elim (Bool-cases (eq_bytes k name)) [
    | inl same ↦
        let e : k ≡ name = (eq_bytes_iff k name).0 same in
        let (more, grown) = with_rule_grows rule old in
        (
          more,
          rw same (
              ap some (
                grown
                ∙ ap (λ (r : List Rule). r ++ more)
                    (some-injective old rules (sym found ∙ (ap v (sym e) ∙ h))))),
        )
    | inr other ↦ ([], rw other (h ∙ sym (ap some (append-nil rules))))
  ]

  -- AppendUnique to a chain that is not foreign.
  pub IsGuarded-append :
      ((k : Text) → IsForeign k → eq_bytes k name ≡ false)
      → IsGuarded v (put v name (some (with_rule rule old)))
  unfolding appended_to
  IsGuarded-append known = record {
    foreign = λ k f. put_ne v name k _ (known k f);
    input = λ rules h. put_grows chain_input rules h;
    forward = λ rules h. put_grows chain_forward rules h;
  }
