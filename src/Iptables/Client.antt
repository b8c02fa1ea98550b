-- ===== src/Iptables/Client.antt =====
-- The client of github.com/coreos/go-iptables that iptables.go calls, and what its methods are
-- documented to do with the chains of a table.
use teleskop.Common.{
  ℕ, ⊤, zero, suc, ◌≡◌, Bool, true, false, ◌||◌, Option, none, some, List, [], ◌∷◌, ◌++◌, eq_bytes,
  if◌then◌else◌,
}
use teleskop.Go.Action.{Action}
use teleskop.Go.Error.{Outcome, ok, err, panic}
use teleskop.Go.Text.{Text}

-- A rulespec: the arguments of one rule.
abbrev pub Rule : Type 0
Rule = List Text

-- The methods, on the host's state: New, NewChain, AppendUnique, Insert, ClearChain, DeleteChain.
-- The first argument of each is the table, the second the chain.
pub record IpTables : Type 1 where
  pub Host : Type 0
  pub new : Action Host ⊤
  pub new_chain : Text → Text → Action Host ⊤
  pub append_unique : Text → Text → Rule → Action Host ⊤
  pub insert : Text → Text → ℕ → Rule → Action Host ⊤
  pub clear_chain : Text → Text → Action Host ⊤
  pub delete_chain : Text → Text → Action Host ⊤

-- The rules of each chain, and `none` where there is no chain.
abbrev pub View : Type 0
View = Text → Option (List Rule)

unfoldable pub put : View → Text → Option (List Rule) → View
put v name rules k = if eq_bytes k name then rules else v k

unfoldable pub eq_rule : Rule → Rule → Bool
eq_rule [] [] = true
eq_rule [] (b ∷ s) = false
eq_rule (a ∷ r) [] = false
eq_rule (a ∷ r) (b ∷ s) = if eq_bytes a b then eq_rule r s else false

unfoldable pub holds_rule : Rule → List Rule → Bool
holds_rule rule [] = false
holds_rule rule (r ∷ rules) = eq_rule r rule || holds_rule rule rules

-- Positions count from 1; a rule can be put behind the last, and no further.
unfoldable pub insert_at : ℕ → Rule → List Rule → Option (List Rule)
insert_at zero rule rules = none
insert_at (suc zero) rule rules = some (rule ∷ rules)
insert_at (suc (suc n)) rule [] = none
insert_at (suc (suc n)) rule (r ∷ rules) = elim (insert_at (suc n) rule rules) [
  | none ↦ none
  | some rest ↦ some (r ∷ rest)
]

abbrev pub created : Text → View → Option (List Rule) → Option View
created name v none = some (put v name (some []))
created name v (some _) = none

abbrev pub stored : Text → View → Option (List Rule) → Option View
stored name v none = none
stored name v (some rules) = some (put v name (some rules))

abbrev pub appended : Text → View → Rule → Option (List Rule) → Option View
appended name v rule none = none
appended name v rule (some rules) =
    some (put v name (some (if holds_rule rule rules then rules else rules ++ rule ∷ [])))

abbrev pub inserted : Text → View → ℕ → Rule → Option (List Rule) → Option View
inserted name v pos rule none = none
inserted name v pos rule (some rules) = stored name v (insert_at pos rule rules)

abbrev pub deleted : Text → View → Option (List Rule) → Option View
deleted name v (some []) = some (put v name none)
deleted name v _ = none

-- The chains after a call that succeeds; `none` where the call cannot succeed. NewChain fails on a
-- chain that is there, AppendUnique does not add a duplicate, Insert puts the rule at a position,
-- ClearChain makes the chain if it is missing, and DeleteChain wants an empty chain.
unfoldable pub after_new_chain : Text → View → Option View
after_new_chain name v = created name v (v name)

unfoldable pub after_append_unique : Text → Rule → View → Option View
after_append_unique name rule v = appended name v rule (v name)

unfoldable pub after_insert : Text → ℕ → Rule → View → Option View
after_insert name pos rule v = inserted name v pos rule (v name)

unfoldable pub after_clear_chain : Text → View → Option View
after_clear_chain name v = some (put v name (some []))

unfoldable pub after_delete_chain : Text → View → Option View
after_delete_chain name v = deleted name v (v name)

-- A call succeeds with the given effect, or fails and changes no chain.
abbrev pub Acts : View → (View → Option View) → Outcome ⊤ → View → Type 0
Acts before effect (ok _) after = effect before ≡ some after
Acts before effect (err _) after = after ≡ before
Acts before effect panic after = ⊥

module _ (c : IpTables) where
  abbrev pub Follows : (c.Host → View) → Action c.Host ⊤ → (View → Option View) → Type 0
  Follows view m effect = (w : c.Host) → Acts (view w) effect (m w).0 (view (m w).1)

  -- The documented behaviour, for the chains of one table.
  pub record IsLawful (table : Text) : Type 0 where
    pub view : c.Host → View
    pub new_chain_law : (name : Text) → Follows view (c.new_chain table name) (after_new_chain name)
    pub append_unique_law :
        (name : Text) (rule : Rule)
        → Follows view (c.append_unique table name rule) (after_append_unique name rule)
    pub insert_law :
        (name : Text) (pos : ℕ) (rule : Rule)
        → Follows view (c.insert table name pos rule) (after_insert name pos rule)
    pub clear_chain_law :
        (name : Text) → Follows view (c.clear_chain table name) (after_clear_chain name)
    pub delete_chain_law :
        (name : Text) → Follows view (c.delete_chain table name) (after_delete_chain name)
